-- ===== src/Ledger/Preserve.antt =====
-- The users' instructions of programs/shadow-lend/src/lib.rs keep the ledger sound.
use mathlib.Core.Option.{some-injective}
use shadowlend.Prelude.{
  ℕ, ◌≤◌, ◌<◌, ◌≡◌, ◌⊎◌, refl, sym, ap, ◌∙◌, inl, inr, some, arith, List, Option-cases, min,
}
use shadowlend.Machine.{u128_max}
use shadowlend.Result.{ok, market, MarketError, >>=-eq-ok, >>-eq-ok, require_keys_eq}
use shadowlend.State.{Pubkey, Market, Position, Clock, MarketAction}
use shadowlend.Runtime.{Runtime, AccountInfo}
use shadowlend.Interest.{accrue_market, accrue_position}
use shadowlend.Interest.Index.{accrue_market_lem}
use shadowlend.Instructions.Accounts.{ModifyPosition, ModifyPositionWithPrice, Modified}
use shadowlend.Instructions.Supply.{supply, open_or_accrue}
use shadowlend.Instructions.Supply.Effect.{supply_effect}
use shadowlend.Instructions.Withdraw.{withdraw}
use shadowlend.Instructions.Withdraw.Effect.{withdraw_effect}
use shadowlend.Instructions.Borrow.{borrow}
use shadowlend.Instructions.Borrow.Effect.{borrow_effect}
use shadowlend.Instructions.Repay.{repay}
use shadowlend.Instructions.Repay.Effect.{repay_effect}
use shadowlend.Ledger.{
  Addresses, AddressLaws, Ledger, market_of, position_of, context, modify_position,
  modify_position_with_price, write_back, init_if_needed, empty_position, market_seed,
  position_seed,
}
use shadowlend.Ledger.Sound.{
  Evolves, IsMarket, IsPosition, IsSound, put_market-IsSound, put_position-IsSound, put_here,
  IsMarket-Evolves,
}

pub accrue_market-Evolves :
    (m : Market) (clock : Clock) → m.borrow_index_e18 ≤ u128_max → Evolves m (accrue_market m clock)
accrue_market-Evolves m clock h = ground (arith, accrue_market_lem m clock h)

module _ (rt : Runtime) (ad : Addresses rt) where
  pub market_of-eq-ok :
      (l : Ledger rt) (mint : Pubkey) {m : Market}
      → market_of rt ad l mint ≡ ok m
      → l.markets (ad.find (market_seed mint)) ≡ some m
  unfolding market_of
  market_of-eq-ok l mint e = ground arith

  pub position_of-eq-ok :
      (l : Ledger rt) (user mint : Pubkey) {p : Position}
      → position_of rt ad l user mint ≡ ok p
      → l.positions (ad.find (position_seed user mint)) ≡ some p
  unfolding position_of
  position_of-eq-ok l user mint e = ground arith

  pub accrue_position-IsPosition :
      {user mint : Pubkey} {m m' : Market} {p : Position}
      → IsPosition rt ad user mint m p
      → Evolves m m'
      → IsPosition rt ad user mint m' (accrue_position p m')
  unfolding accrue_position
  accrue_position-IsPosition is ev = ground arith

  -- A position of an account that was just created is filled from the market, any other accrued.
  open_or_accrue_lem :
      {user mint : Pubkey} {m m' : Market} {p : Position}
      → IsMarket rt ad mint m'
      → (p ≡ empty_position) ⊎ IsPosition rt ad user mint m p
      → Evolves m m'
      → IsPosition rt ad user mint m' (open_or_accrue (context rt ad user mint m p) m')
  unfolding open_or_accrue context
  open_or_accrue_lem terms (inl new) ev = rw new (ground arith)
  open_or_accrue_lem terms (inr is) ev = ground (arith, accrue_position-IsPosition is ev)

  module _ (l : Ledger rt) (s : IsSound rt ad l.markets l.positions) (user mint : Pubkey)
      {m : Market} (found : l.markets (ad.find (market_seed mint)) ≡ some m) where
    -- The stored market of a stored position is the one that is found.
    pub stored_position :
        {p : Position}
        → l.positions (ad.find (position_seed user mint)) ≡ some p
        → IsPosition rt ad user mint m p
    stored_position {p} held =
        let (x, stored, is) = s.position user mint p held in
        rw (some-injective _ _ (sym found ∙ stored)) is

    -- The position that a user's instruction begins with is new, or one of the market.
    pub opened :
        let p = init_if_needed (l.positions (ad.find (position_seed user mint))) in
        (p ≡ empty_position) ⊎ IsPosition rt ad user mint m p
    unfolding init_if_needed
    opened = elim (Option-cases (l.positions (ad.find (position_seed user mint)))) [
      | inl missing ↦ inl (rw missing refl)
      | inr (p, held) ↦ inr (rw held (stored_position held))
    ]

    -- Writing a later state of the market and a position of it keeps the ledger sound.
    pub write_back-IsSound :
        AddressLaws rt ad
        → (p : Position) (r : Modified rt.Tokens MarketAction) → Evolves m r.market
        → IsPosition rt ad user mint r.market r.position
        → let l' = write_back rt ad l (context rt ad user mint m p) r in
          IsSound rt ad l'.markets l'.positions
    unfolding write_back context
    write_back-IsSound laws p r ev is =
        let key = ad.find (market_seed mint) in
        put_position-IsSound rt ad laws (put_market-IsSound rt ad laws s found ev)
          (put_here l.markets key r.market) is

  pub modify_position-eq-ok :
      (l : Ledger rt) (user mint : Pubkey) {ctx : ModifyPosition}
      → modify_position rt ad l user mint ≡ ok ctx
      → (m : Market) × (l.markets (ad.find (market_seed mint)) ≡ some m)
        × (context rt ad user mint m
              (init_if_needed (l.positions (ad.find (position_seed user mint))))
            ≡ ctx)
  unfolding modify_position
  modify_position-eq-ok l user mint e =
      let (m, found, e₁) = >>=-eq-ok (market_of rt ad l mint) _ e in
      (m, market_of-eq-ok l mint found, ground arith)

  abbrev pub priced :
      Pubkey
      → Pubkey
      → Market
      → Position
      → rt.PriceUpdate
      → List (AccountInfo rt)
      → ModifyPositionWithPrice rt
  priced user mint m p update remaining = record {
    base = context rt ad user mint m p;
    price_update = update;
    remaining_accounts = remaining;
  }

  pub modify_position_with_price-eq-ok :
      (l : Ledger rt) (user mint : Pubkey) (update : rt.PriceUpdate)
      (remaining : List (AccountInfo rt)) {ctx : ModifyPositionWithPrice rt}
      → modify_position_with_price rt ad l user mint update remaining ≡ ok ctx
      → (m : Market) × (p : Position) × (l.markets (ad.find (market_seed mint)) ≡ some m)
        × (l.positions (ad.find (position_seed user mint)) ≡ some p)
        × (priced user mint m p update remaining ≡ ctx)
  unfolding modify_position_with_price
  modify_position_with_price-eq-ok l user mint update remaining e =
      let (m, found, e₁) = >>=-eq-ok (market_of rt ad l mint) _ e in
      let (p, held, e₂) = >>=-eq-ok (position_of rt ad l user mint) _ e₁ in
      let (_, e₃) =
        >>-eq-ok (require_keys_eq p.user user (market MarketError.bad_position_account)) _ e₂ in
      (m, p, market_of-eq-ok l mint found, position_of-eq-ok l user mint held, ground arith)

  -- What a handler of a position leaves in the ledger's terms.
  abbrev pub Keeps : Pubkey → Pubkey → Market → Modified rt.Tokens MarketAction → Type 0
  Keeps user mint m r = Evolves m r.market × IsPosition rt ad user mint r.market r.position

  -- Nothing is owed in a position that was just created.
  unpaid :
      (m : Market) (p : Position) (amount : ℕ)
      → p ≡ empty_position
      → ¬ (0 < min amount (accrue_position p m).borrowed)
  unfolding accrue_position
  unpaid m p amount new some_pay = ground (arith, ap (λ (q : Position). q.borrowed) new)

  module _ (user mint : Pubkey) (m : Market) (p : Position) (tokens : rt.Tokens) (clock : Clock)
      (amount : ℕ) (terms : IsMarket rt ad mint m) {r : Modified rt.Tokens MarketAction} where
    pub supply-Keeps :
        (p ≡ empty_position) ⊎ IsPosition rt ad user mint m p
        → supply rt (context rt ad user mint m p) tokens clock amount ≡ ok r
        → Keeps user mint m r
    unfolding context
    supply-Keeps old e =
        let ev = accrue_market-Evolves m clock terms.index_bound in
        let is = open_or_accrue_lem (IsMarket-Evolves rt ad terms ev) old ev in
        let (_, _, _, _, position, total) =
          supply_effect rt (context rt ad user mint m p) tokens clock amount e in
        rw (position, total) (ground (arith, ev), ground (arith, is))

    pub repay-Keeps :
        (p ≡ empty_position) ⊎ IsPosition rt ad user mint m p
        → repay rt (context rt ad user mint m p) tokens clock amount ≡ ok r
        → Keeps user mint m r
    unfolding context
    repay-Keeps old e =
        let ev = accrue_market-Evolves m clock terms.index_bound in
        let (some_pay, _, position, total) =
          repay_effect rt (context rt ad user mint m p) tokens clock amount e in
        elim old [
          | inl new ↦ absurd (unpaid (accrue_market m clock) p amount new some_pay)
          | inr is ↦
              rw (position, total)
                (ground (arith, ev), ground (arith, accrue_position-IsPosition is ev))
        ]

    module _ (update : rt.PriceUpdate) (remaining : List (AccountInfo rt))
        (is : IsPosition rt ad user mint m p) where
      pub withdraw-Keeps :
          withdraw rt (priced user mint m p update remaining) tokens clock amount ≡ ok r
          → Keeps user mint m r
      unfolding context
      withdraw-Keeps e =
          let ev = accrue_market-Evolves m clock terms.index_bound in
          let (_, _, _, _, position, total) =
            withdraw_effect rt (priced user mint m p update remaining) tokens clock amount e in
          rw (position, total)
            (ground (arith, ev), ground (arith, accrue_position-IsPosition is ev))

      pub borrow-Keeps :
          borrow rt (priced user mint m p update remaining) tokens clock amount ≡ ok r
          → Keeps user mint m r
      unfolding context
      borrow-Keeps e =
          let ev = accrue_market-Evolves m clock terms.index_bound in
          let (_, _, _, _, _, _, position, total) =
            borrow_effect rt (priced user mint m p update remaining) tokens clock amount e in
          rw (position, total)
            (ground (arith, ev), ground (arith, accrue_position-IsPosition is ev))
