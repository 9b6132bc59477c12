-- ===== src/Ledger/Steps.antt =====
-- The users' instructions of programs/shadow-lend/src/lib.rs keep the ledger sound.
use shadowlend.Prelude.{ℕ, ◌≡◌, some, List}
use shadowlend.Result.{ok}
use shadowlend.State.{Market, Position, Clock, MarketAction}
use shadowlend.Runtime.{Runtime, AccountInfo}
use shadowlend.Instructions.Accounts.{Modified}
use shadowlend.Ledger.{Addresses, AddressLaws, Ledger, context, write_back, market_seed}
use shadowlend.Ledger.Execute.{run_supply, run_repay, run_withdraw, run_borrow}
use shadowlend.Ledger.Sound.{IsSound}
use shadowlend.Ledger.Preserve.{
  Keeps, supply-Keeps, repay-Keeps, withdraw-Keeps, borrow-Keeps, opened, stored_position,
  write_back-IsSound,
}
use shadowlend.Ledger.Inversion.{
  held, run_supply-eq-ok, run_repay-eq-ok, run_withdraw-eq-ok, run_borrow-eq-ok,
}

module _ (rt : Runtime) (ad : Addresses rt) (laws : AddressLaws rt ad) (l : Ledger rt)
    (clock : Clock) (s : IsSound rt ad l.markets l.positions) where
  module _ {user mint : ℕ} (l' : Ledger rt) where
    -- A ledger that a user's instruction has written is sound, if the terms are kept.
    written :
        {m : Market} (p : Position) (r : Modified rt.Tokens MarketAction)
        → l.markets (ad.find (market_seed mint)) ≡ some m
        → Keeps rt ad user mint m r
        → write_back rt ad l (context rt ad user mint m p) r ≡ l'
        → IsSound rt ad l'.markets l'.positions
    written p r found (ev, is) writes =
        rw (← writes) (write_back-IsSound rt ad l s user mint found laws p r ev is)

  module _ (user mint amount : ℕ) (l' : Ledger rt) where
    pub supply-IsSound :
        run_supply rt ad l clock user mint amount ≡ ok l' → IsSound rt ad l'.markets l'.positions
    supply-IsSound e =
        let (m, r, found, r_ok, writes) = run_supply-eq-ok rt ad l clock user mint amount e in
        let p = held rt ad l user mint in
        written l' p r found
          (supply-Keeps rt ad user mint m p l.tokens clock amount (s.market mint m found)
            (opened rt ad l s user mint found) r_ok)
          writes

    pub repay-IsSound :
        run_repay rt ad l clock user mint amount ≡ ok l' → IsSound rt ad l'.markets l'.positions
    repay-IsSound e =
        let (m, r, found, r_ok, writes) = run_repay-eq-ok rt ad l clock user mint amount e in
        let p = held rt ad l user mint in
        written l' p r found
          (repay-Keeps rt ad user mint m p l.tokens clock amount (s.market mint m found)
            (opened rt ad l s user mint found) r_ok)
          writes

    module _ (update : rt.PriceUpdate) (remaining : List (AccountInfo rt)) where
      pub withdraw-IsSound :
          run_withdraw rt ad l clock user mint amount update remaining ≡ ok l'
          → IsSound rt ad l'.markets l'.positions
      withdraw-IsSound e =
          let (m, p, r, found, at, r_ok, writes) =
            run_withdraw-eq-ok rt ad l clock user mint amount update remaining e in
          written l' p r found
            (withdraw-Keeps rt ad user mint m p l.tokens clock amount (s.market mint m found) update
              remaining (stored_position rt ad l s user mint found at) r_ok)
            writes

      pub borrow-IsSound :
          run_borrow rt ad l clock user mint amount update remaining ≡ ok l'
          → IsSound rt ad l'.markets l'.positions
      borrow-IsSound e =
          let (m, p, r, found, at, r_ok, writes) =
            run_borrow-eq-ok rt ad l clock user mint amount update remaining e in
          written l' p r found
            (borrow-Keeps rt ad user mint m p l.tokens clock amount (s.market mint m found) update
              remaining (stored_position rt ad l s user mint found at) r_ok)
            writes
