-- ===== src/Ledger/Inversion.antt =====
-- What a user's instruction of programs/shadow-lend/src/lib.rs that succeeds on the ledger has done:
-- the market it found, the handler's success on the accounts of its context, and the write.
pub mod Upkeep
pub mod Seizure
use shadowlend.Prelude.{ℕ, ◌≡◌, ap, some, List}
use shadowlend.Result.{ok, >>=-eq-ok, ok-inj}
use shadowlend.State.{Pubkey, Market, Position, Clock, MarketAction}
use shadowlend.Runtime.{Runtime, AccountInfo}
use shadowlend.Instructions.Accounts.{ModifyPositionWithPrice, Modified}
use shadowlend.Instructions.Supply.{supply}
use shadowlend.Instructions.Withdraw.{withdraw}
use shadowlend.Instructions.Borrow.{borrow}
use shadowlend.Instructions.Repay.{repay}
use shadowlend.Ledger.{
  Addresses, Ledger, context, modify_position, modify_position_with_price, write_back,
  init_if_needed, market_seed, position_seed,
}
use shadowlend.Ledger.Execute.{run_supply, run_repay, run_withdraw, run_borrow}
use shadowlend.Ledger.Preserve.{priced, modify_position-eq-ok, modify_position_with_price-eq-ok}

module _ (rt : Runtime) (ad : Addresses rt) (l : Ledger rt) (user mint : ℕ) where
  -- The position that `supply` and `repay` begin with.
  abbrev pub held : Position
  held = init_if_needed (l.positions (ad.find (position_seed user mint)))

module _ (rt : Runtime) (ad : Addresses rt) (l : Ledger rt) (clock : Clock)
    (user mint amount : ℕ) where
  module _ {l' : Ledger rt} where
    pub run_supply-eq-ok :
        run_supply rt ad l clock user mint amount ≡ ok l'
        → (m : Market) × (r : Modified rt.Tokens MarketAction) × (l.markets
              (ad.find (market_seed mint))
            ≡ some m)
          × (supply rt (context rt ad user mint m (held rt ad l user mint)) l.tokens clock amount
              ≡ ok r)
          × (write_back rt ad l (context rt ad user mint m (held rt ad l user mint)) r ≡ l')
    unfolding run_supply
    run_supply-eq-ok e =
        let (ctx, ctx_ok, e₁) = >>=-eq-ok (modify_position rt ad l user mint) _ e in
        let (m, found, is_ctx) = modify_position-eq-ok rt ad l user mint ctx_ok in
        let (r, r_ok, e₂) = >>=-eq-ok (supply rt ctx l.tokens clock amount) _ e₁ in
        (m, r, found, rw is_ctx r_ok, rw is_ctx (ok-inj e₂))

    pub run_repay-eq-ok :
        run_repay rt ad l clock user mint amount ≡ ok l'
        → (m : Market) × (r : Modified rt.Tokens MarketAction) × (l.markets
              (ad.find (market_seed mint))
            ≡ some m)
          × (repay rt (context rt ad user mint m (held rt ad l user mint)) l.tokens clock amount
              ≡ ok r)
          × (write_back rt ad l (context rt ad user mint m (held rt ad l user mint)) r ≡ l')
    unfolding run_repay
    run_repay-eq-ok e =
        let (ctx, ctx_ok, e₁) = >>=-eq-ok (modify_position rt ad l user mint) _ e in
        let (m, found, is_ctx) = modify_position-eq-ok rt ad l user mint ctx_ok in
        let (r, r_ok, e₂) = >>=-eq-ok (repay rt ctx l.tokens clock amount) _ e₁ in
        (m, r, found, rw is_ctx r_ok, rw is_ctx (ok-inj e₂))

    module _ (update : rt.PriceUpdate) (remaining : List (AccountInfo rt)) where
      pub run_withdraw-eq-ok :
          run_withdraw rt ad l clock user mint amount update remaining ≡ ok l'
          → (m : Market) × (p : Position) × (r : Modified rt.Tokens MarketAction) × (l.markets
                (ad.find (market_seed mint))
              ≡ some m)
            × (l.positions (ad.find (position_seed user mint)) ≡ some p)
            × (withdraw rt (priced rt ad user mint m p update remaining) l.tokens clock amount
                ≡ ok r)
            × (write_back rt ad l (context rt ad user mint m p) r ≡ l')
      unfolding run_withdraw
      run_withdraw-eq-ok e =
          let (ctx, ctx_ok, e₁) =
            >>=-eq-ok (modify_position_with_price rt ad l user mint update remaining) _ e in
          let (m, p, found, at, is_ctx) =
            modify_position_with_price-eq-ok rt ad l user mint update remaining ctx_ok in
          let (r, r_ok, e₂) = >>=-eq-ok (withdraw rt ctx l.tokens clock amount) _ e₁ in
          let base_is = ap (λ (c : ModifyPositionWithPrice rt). c.base) is_ctx in
          (m, p, r, found, at, rw is_ctx r_ok, rw base_is (ok-inj e₂))

      pub run_borrow-eq-ok :
          run_borrow rt ad l clock user mint amount update remaining ≡ ok l'
          → (m : Market) × (p : Position) × (r : Modified rt.Tokens MarketAction) × (l.markets
                (ad.find (market_seed mint))
              ≡ some m)
            × (l.positions (ad.find (position_seed user mint)) ≡ some p)
            × (borrow rt (priced rt ad user mint m p update remaining) l.tokens clock amount ≡ ok r)
            × (write_back rt ad l (context rt ad user mint m p) r ≡ l')
      unfolding run_borrow
      run_borrow-eq-ok e =
          let (ctx, ctx_ok, e₁) =
            >>=-eq-ok (modify_position_with_price rt ad l user mint update remaining) _ e in
          let (m, p, found, at, is_ctx) =
            modify_position_with_price-eq-ok rt ad l user mint update remaining ctx_ok in
          let (r, r_ok, e₂) = >>=-eq-ok (borrow rt ctx l.tokens clock amount) _ e₁ in
          let base_is = ap (λ (c : ModifyPositionWithPrice rt). c.base) is_ctx in
          (m, p, r, found, at, rw is_ctx r_ok, rw base_is (ok-inj e₂))
