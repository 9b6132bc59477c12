-- ===== src/Ledger/Listed/Covered.antt =====
-- About the health of a user on the ledger after `withdraw` and `borrow` of
-- programs/shadow-lend/src/lib.rs.
use shadowlend.Prelude.{ℕ, ◌≡◌, ◌≤◌, ◌⊎◌, ◌∙◌, List, some, inl, inr}
use shadowlend.Result.{ok, >>=-eq-ok}
use shadowlend.State.{Pubkey, Market, Position, Price, Clock, MarketAction}
use shadowlend.Runtime.{Runtime, AccountInfo}
use shadowlend.Health.{Totals, no_totals, fresh_price, accumulate_position}
use shadowlend.Instructions.Accounts.{Modified}
use shadowlend.Instructions.Specs.{IsHealthy, user_totals}
use shadowlend.Instructions.Withdraw.Effect.{withdraw-IsHealthy}
use shadowlend.Instructions.Borrow.Effect.{borrow-IsHealthy}
use shadowlend.Ledger.{Addresses, Ledger, context, write_back, market_seed, position_seed}
use shadowlend.Ledger.Execute.{run_withdraw, run_borrow}
use shadowlend.Ledger.Inversion.{run_withdraw-eq-ok, run_borrow-eq-ok}
use shadowlend.Ledger.Listed.{AreStored, stored_walk, stored_walk-put, accumulate_remaining-stored}
use shadowlend.Ledger.Preserve.{priced}
use shadowlend.Ledger.Sound.{put_here}

module _ (rt : Runtime) (ad : Addresses rt) (clock : Clock) (user mint : Pubkey)
    (update : rt.PriceUpdate) (remaining : List (AccountInfo rt)) where
  -- The stored position of the user for the mint, at a fresh price of the stored market's feed, and the
  -- stored positions at the keys that are listed owe no more than their collateral at its limits.
  pub record IsCovered (l : Ledger rt) : Type 0 where
    pub m : Market
    pub p : Position
    pub price : Price
    pub own : Totals
    pub t : Totals
    pub market : l.markets (ad.find (market_seed mint)) ≡ some m
    pub position : l.positions (ad.find (position_seed user mint)) ≡ some p
    pub fresh : fresh_price rt update clock m.feed_id ≡ ok price
    pub owns :
        accumulate_position p.supplied p.borrowed price p.decimals p.max_ltv_bps no_totals ≡ ok own
    pub sums :
        stored_walk rt l.positions user (ad.find (position_seed user mint)) clock remaining own
        ≡ ok t
    pub covers : t.debt ≤ t.collat_at_ltv

  module _ (l l' : Ledger rt) (stored : AreStored rt l.positions remaining) where
    write_back-IsCovered :
        (m : Market) (p : Position) (r : Modified rt.Tokens MarketAction)
        → IsHealthy rt
            (priced rt ad user mint m p update remaining)
            clock
            r.market.feed_id
            r.position
        → write_back rt ad l (context rt ad user mint m p) r ≡ l'
        → IsCovered l'
    unfolding write_back context user_totals
    write_back-IsCovered m p r (t, sums, covers) writes =
        let (price, fresh, e₁) = >>=-eq-ok (fresh_price rt update clock r.market.feed_id) _ sums in
        let (own, owns, e₂) =
          >>=-eq-ok
            (accumulate_position r.position.supplied r.position.borrowed price r.position.decimals
              r.position.max_ltv_bps no_totals)
            _ e₁ in
        let key = ad.find (position_seed user mint) in
        let walks =
          accumulate_remaining-stored rt l.positions user clock key remaining own stored e₂ in
        rw (← writes) (record {
          m = r.market;
          p = r.position;
          price = price;
          own = own;
          t = t;
          market = put_here l.markets (ad.find (market_seed mint)) r.market;
          position = put_here l.positions key r.position;
          fresh = fresh;
          owns = owns;
          sums = stored_walk-put rt l.positions user clock key r.position remaining own ∙ walks;
          covers = covers;
        })

    -- After a withdrawal or a loan that succeeds on a ledger, where every listed account of the program
    -- that reads as a position is the one stored at its key: in the new ledger the user's stored
    -- position, at a fresh price of the stored market's feed, and the stored positions of the same
    -- user at the listed keys owe no more than their collateral at its limits, each listed pair
    -- counted as often as it is listed.
    pub withdraw_or_borrow-IsCovered :
        (amount : ℕ)
        → (run_withdraw rt ad l clock user mint amount update remaining ≡ ok l')
          ⊎ (run_borrow rt ad l clock user mint amount update remaining ≡ ok l')
        → IsCovered l'
    withdraw_or_borrow-IsCovered amount (inl e) =
        let (m, p, r, _, _, r_ok, writes) =
          run_withdraw-eq-ok rt ad l clock user mint amount update remaining e in
        write_back-IsCovered m p r
          (withdraw-IsHealthy rt (priced rt ad user mint m p update remaining) l.tokens clock amount
            r_ok)
          writes
    withdraw_or_borrow-IsCovered amount (inr e) =
        let (m, p, r, _, _, r_ok, writes) =
          run_borrow-eq-ok rt ad l clock user mint amount update remaining e in
        write_back-IsCovered m p r
          (borrow-IsHealthy rt (priced rt ad user mint m p update remaining) l.tokens clock amount
            r_ok)
          writes
