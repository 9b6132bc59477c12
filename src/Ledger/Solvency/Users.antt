-- ===== src/Ledger/Solvency/Users.antt =====
-- The users' instructions of programs/shadow-lend/src/lib.rs keep the ledger solvent.
use shadowlend.Prelude.{ℕ, ◌+◌, ◌≤◌, ◌≡◌, ap, sym, refl, none, some, arith, List, Option, min}
use shadowlend.Result.{ok}
use shadowlend.State.{Pubkey, Market, Position, Clock, MarketAction}
use shadowlend.Runtime.{Runtime, TransferLaws, AccountInfo}
use shadowlend.Interest.{accrue_market, accrue_position}
use shadowlend.Instructions.Accounts.{Modified, pay_in, pay_out}
use shadowlend.Instructions.Supply.{open_or_accrue}
use shadowlend.Instructions.Supply.Effect.{supply_effect}
use shadowlend.Instructions.Withdraw.Effect.{withdraw_effect}
use shadowlend.Instructions.Borrow.Effect.{borrow_effect}
use shadowlend.Instructions.Repay.Effect.{repay_effect}
use shadowlend.Ledger.{
  Addresses, AddressLaws, VaultLaws, Ledger, context, write_back, init_if_needed, market_seed,
  vault_seed, position_seed,
}
use shadowlend.Ledger.Execute.{run_supply, run_repay, run_withdraw, run_borrow}
use shadowlend.Ledger.Books.{supplied_in}
use shadowlend.Ledger.Preserve.{priced}
use shadowlend.Ledger.Inversion.{
  held, run_supply-eq-ok, run_repay-eq-ok, run_withdraw-eq-ok, run_borrow-eq-ok,
}
use shadowlend.Ledger.Solvency.{IsSolvent, SparesOthers, vault_balance, post-IsSolvent, vault-inj}

pub accrue_market_totals :
    (m : Market) (clock : Clock)
    → ((accrue_market m clock).total_supplied ≡ m.total_supplied)
      × ((accrue_market m clock).total_borrowed ≡ m.total_borrowed)
unfolding accrue_market
accrue_market_totals m clock = ground arith

pub accrue_position_supplied :
    (p : Position) (m : Market) → (accrue_position p m).supplied ≡ p.supplied
unfolding accrue_position
accrue_position_supplied p m = ground arith

module _ (rt : Runtime) (ad : Addresses rt) where
  open_or_accrue_supplied :
      (user mint : Pubkey) (m m' : Market) (p : Position)
      → (open_or_accrue (context rt ad user mint m p) m').supplied ≡ p.supplied
  unfolding open_or_accrue context
  open_or_accrue_supplied user mint m m' p = ground (arith, accrue_position_supplied p m')

init_if_needed_supplied : (o : Option Position) → supplied_in o ≡ (init_if_needed o).supplied
unfolding init_if_needed
init_if_needed_supplied none = refl
init_if_needed_supplied (some p) = refl

module _ (rt : Runtime) (ad : Addresses rt) (laws : AddressLaws rt ad) (vaults : VaultLaws rt ad)
    (moves : TransferLaws rt) where
  module _ (user mint : Pubkey) (m m' : Market) (p : Position) (t t' : rt.Tokens) (n : ℕ) where
    -- A payment into the vault.
    paid_in :
        rt.transfer t (pay_in (context rt ad user mint m p)) n ≡ some t'
        → (vault_balance rt ad t' mint ≡ vault_balance rt ad t mint + n)
          × SparesOthers rt ad mint t t'
    unfolding context pay_in
    paid_in e =
        let c = pay_in (context rt ad user mint m p) in
        (
          moves.credits t t' c n e (vaults.associated_apart user mint (vault_seed mint)),
          λ other apart. omega (
            arith,
            moves.spares t t' c n (ad.find (vault_seed other)) e
                (λ x. vaults.associated_apart user mint (vault_seed other) (sym x))
                (λ x. apart (vault-inj rt ad laws x)),
          ),
        )

    -- A payment out of the vault.
    paid_out :
        rt.transfer t (pay_out (context rt ad user mint m p) m') n ≡ some t'
        → (vault_balance rt ad t mint ≡ vault_balance rt ad t' mint + n)
          × SparesOthers rt ad mint t t'
    unfolding context pay_out
    paid_out e =
        let c = pay_out (context rt ad user mint m p) m' in
        (
          moves.debits t t' c n e
              (λ x. vaults.associated_apart user mint (vault_seed mint) (sym x)),
          λ other apart. omega (
            arith,
            moves.spares t t' c n (ad.find (vault_seed other)) e
                (λ x. apart (vault-inj rt ad laws x))
                (λ x. vaults.associated_apart user mint (vault_seed other) (sym x)),
          ),
        )

  module _ (l : Ledger rt) (s : IsSolvent rt ad l.markets l.positions l.tokens) (user mint : ℕ)
      (l' : Ledger rt) where
    -- A user's instruction that has written keeps the ledger solvent, if its totals move together.
    posted :
        {m : Market} (p : Position) (r : Modified rt.Tokens MarketAction)
        → l.markets (ad.find (market_seed mint)) ≡ some m
        → r.market.total_supplied + supplied_in (l.positions (ad.find (position_seed user mint)))
          ≡ m.total_supplied + r.position.supplied
        → r.market.total_supplied ≤ vault_balance rt ad r.tokens mint + r.market.total_borrowed
        → SparesOthers rt ad mint l.tokens r.tokens
        → write_back rt ad l (context rt ad user mint m p) r ≡ l'
        → IsSolvent rt ad l'.markets l'.positions l'.tokens
    unfolding write_back context
    posted p r found totals covered spares writes =
        rw (← writes)
          (post-IsSolvent rt ad laws user mint r.market r.position s found totals covered spares)

  module _ (l : Ledger rt) (clock : Clock) (s : IsSolvent rt ad l.markets l.positions l.tokens)
      (user mint amount : ℕ) (l' : Ledger rt) where
    pub supply-IsSolvent :
        run_supply rt ad l clock user mint amount ≡ ok l'
        → IsSolvent rt ad l'.markets l'.positions l'.tokens
    unfolding context
    supply-IsSolvent e =
        let (m, r, found, r_ok, writes) = run_supply-eq-ok rt ad l clock user mint amount e in
        let p = held rt ad l user mint in
        let (_, pays, _, _, position, total) =
          supply_effect rt (context rt ad user mint m p) l.tokens clock amount r_ok in
        let (gains, spares) = paid_in user mint m m p l.tokens r.tokens amount pays in
        let m' = accrue_market m clock in
        let before = init_if_needed_supplied (l.positions (ad.find (position_seed user mint))) in
        let same = open_or_accrue_supplied rt ad user mint m m' p in
        let supplied = ap (λ (q : Position). q.supplied) position in
        let deposited = ap (λ (q : Market). q.total_supplied) total in
        let borrowed = ap (λ (q : Market). q.total_borrowed) total in
        let totals = accrue_market_totals m clock in
        posted l s user mint l' p r found (omega (arith, before, same, supplied, deposited, totals))
          (omega (arith, deposited, borrowed, totals, gains, s.backed mint m found)) spares writes

    pub repay-IsSolvent :
        run_repay rt ad l clock user mint amount ≡ ok l'
        → IsSolvent rt ad l'.markets l'.positions l'.tokens
    unfolding context
    repay-IsSolvent e =
        let (m, r, found, r_ok, writes) = run_repay-eq-ok rt ad l clock user mint amount e in
        let p = held rt ad l user mint in
        let m' = accrue_market m clock in
        let (_, pays, position, total) =
          repay_effect rt (context rt ad user mint m p) l.tokens clock amount r_ok in
        let (gains, spares) =
          paid_in user mint m m p l.tokens r.tokens (min amount (accrue_position p m').borrowed)
            pays in
        let before = init_if_needed_supplied (l.positions (ad.find (position_seed user mint))) in
        let same = accrue_position_supplied p m' in
        let supplied = ap (λ (q : Position). q.supplied) position in
        let deposited = ap (λ (q : Market). q.total_supplied) total in
        let borrowed = ap (λ (q : Market). q.total_borrowed) total in
        let totals = accrue_market_totals m clock in
        posted l s user mint l' p r found (omega (arith, before, same, supplied, deposited, totals))
          (omega (arith, deposited, borrowed, totals, gains, s.backed mint m found)) spares writes

    module _ (update : rt.PriceUpdate) (remaining : List (AccountInfo rt)) where
      pub withdraw-IsSolvent :
          run_withdraw rt ad l clock user mint amount update remaining ≡ ok l'
          → IsSolvent rt ad l'.markets l'.positions l'.tokens
      unfolding context
      withdraw-IsSolvent e =
          let (m, p, r, found, at, r_ok, writes) =
            run_withdraw-eq-ok rt ad l clock user mint amount update remaining e in
          let m' = accrue_market m clock in
          let (_, pays, enough, total_enough, position, total) =
            withdraw_effect rt (priced rt ad user mint m p update remaining) l.tokens clock amount
              r_ok in
          let (gives, spares) = paid_out user mint m m' p l.tokens r.tokens amount pays in
          let before = ap supplied_in at in
          let same = accrue_position_supplied p m' in
          let supplied = ap (λ (q : Position). q.supplied) position in
          let deposited = ap (λ (q : Market). q.total_supplied) total in
          let borrowed = ap (λ (q : Market). q.total_borrowed) total in
          let totals = accrue_market_totals m clock in
          posted l s user mint l' p r found
            (omega (arith, before, same, supplied, deposited, totals, enough, total_enough))
            (omega (arith, deposited, borrowed, totals, gives, s.backed mint m found)) spares writes

      pub borrow-IsSolvent :
          run_borrow rt ad l clock user mint amount update remaining ≡ ok l'
          → IsSolvent rt ad l'.markets l'.positions l'.tokens
      unfolding context
      borrow-IsSolvent e =
          let (m, p, r, found, at, r_ok, writes) =
            run_borrow-eq-ok rt ad l clock user mint amount update remaining e in
          let m' = accrue_market m clock in
          let (_, pays, _, _, _, _, position, total) =
            borrow_effect rt (priced rt ad user mint m p update remaining) l.tokens clock amount
              r_ok in
          let (gives, spares) = paid_out user mint m m' p l.tokens r.tokens amount pays in
          let before = ap supplied_in at in
          let same = accrue_position_supplied p m' in
          let supplied = ap (λ (q : Position). q.supplied) position in
          let deposited = ap (λ (q : Market). q.total_supplied) total in
          let borrowed = ap (λ (q : Market). q.total_borrowed) total in
          let totals = accrue_market_totals m clock in
          posted l s user mint l' p r found
            (omega (arith, before, same, supplied, deposited, totals))
            (omega (arith, deposited, borrowed, totals, gives, s.backed mint m found)) spares writes
