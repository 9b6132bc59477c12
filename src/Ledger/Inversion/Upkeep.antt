-- ===== src/Ledger/Inversion/Upkeep.antt =====
-- What the other instructions of programs/shadow-lend/src/lib.rs that succeed on the ledger have done:
-- what the constraints found, the handler's success, and the write.
use shadowlend.Prelude.{ℕ, ◌≡◌, none, some, arith}
use shadowlend.Result.{
  ok, constraint, >>=-eq-ok, >>-eq-ok, ok-inj, ok_or-eq-ok, require_keys_eq, ok_or,
}
use shadowlend.State.{Pubkey, Market, Clock, ActionKind, UserStats, ActionRecorded}
use shadowlend.Runtime.{Runtime}
use shadowlend.Instructions.Admin.{initialize_market, set_claim_amount}
use shadowlend.Instructions.Faucet.{Claimed, claim_faucet}
use shadowlend.Instructions.Liquidate.{Liquidate, Liquidated, liquidate}
use shadowlend.Instructions.Stats.{init_user_stats, record_action}
use shadowlend.Ledger.{
  Addresses, Ledger, Store, put, init, market_of, market_at, market_seed, claim_seed, stats_seed,
}
use shadowlend.Ledger.Call.{LiquidateCall}
use shadowlend.Ledger.Execute.{
  market_context, claim_context, run_initialize_market, run_set_claim_amount, run_claim_faucet,
  liquidate_context, write_liquidated, run_liquidate, run_init_user_stats, run_record_action,
}
use shadowlend.Ledger.Preserve.{market_of-eq-ok}

pub init-eq-ok :
    {A : Type 0} (store : Store A) (key : Pubkey) → init store key ≡ ok tt → store key ≡ none
unfolding init
init-eq-ok store key e = ground arith

module _ (rt : Runtime) (ad : Addresses rt) where
  pub market_at-eq-ok :
      (l : Ledger rt) (key : Pubkey) {m : Market}
      → market_at rt ad l key ≡ ok m
      → (l.markets key ≡ some m) × (key ≡ ad.find (market_seed m.mint))
  unfolding market_at
  market_at-eq-ok l key e = ground arith

module _ (rt : Runtime) (ad : Addresses rt) (l : Ledger rt) (clock : Clock) {l' : Ledger rt} where
  pub run_initialize_market-eq-ok :
      (admin mint claim ltv feed rate : ℕ)
      → run_initialize_market rt ad l clock admin mint claim ltv feed rate ≡ ok l'
      → (m : Market) × (l.markets (ad.find (market_seed mint)) ≡ none)
        × (initialize_market (market_context rt ad admin mint) clock claim ltv feed rate ≡ ok m)
        × (record l { markets = put l.markets (ad.find (market_seed mint)) m } ≡ l')
  unfolding run_initialize_market
  run_initialize_market-eq-ok admin mint claim ltv feed rate e =
      let (free, e₁) = >>-eq-ok (init l.markets (ad.find (market_seed mint))) _ e in
      let (m, made, e₂) =
        >>=-eq-ok (initialize_market (market_context rt ad admin mint) clock claim ltv feed rate) _
          e₁ in
      (m, init-eq-ok _ _ free, made, ok-inj e₂)

  pub run_claim_faucet-eq-ok :
      (user mint : ℕ)
      → run_claim_faucet rt ad l clock user mint ≡ ok l'
      → (m : Market) × (r : Claimed rt.Tokens) × (l.markets (ad.find (market_seed mint)) ≡ some m)
        × (l.receipts (ad.find (claim_seed user mint)) ≡ none)
        × (claim_faucet rt (claim_context rt ad user mint m) l.tokens clock ≡ ok r)
        × (record l {
          markets = put l.markets (ad.find (market_seed mint)) r.market;
          receipts = put l.receipts (ad.find (claim_seed user mint)) r.receipt;
          tokens = r.tokens;
        }
            ≡ l')
  unfolding run_claim_faucet
  run_claim_faucet-eq-ok user mint e =
      let (m, at, e₁) = >>=-eq-ok (market_of rt ad l mint) _ e in
      let (free, e₂) = >>-eq-ok (init l.receipts (ad.find (claim_seed user mint))) _ e₁ in
      let (r, claimed, e₃) =
        >>=-eq-ok (claim_faucet rt (claim_context rt ad user mint m) l.tokens clock) _ e₂ in
      (m, r, market_of-eq-ok rt ad l mint at, init-eq-ok _ _ free, claimed, ok-inj e₃)

  pub run_liquidate-eq-ok :
      (c : LiquidateCall rt) (amount : ℕ)
      → run_liquidate rt ad l clock c amount ≡ ok l'
      → (ctx : Liquidate rt) × (r : Liquidated rt.Tokens) × (liquidate_context rt ad l c ≡ ok ctx)
        × (liquidate rt ctx l.tokens clock amount ≡ ok r)
        × (write_liquidated rt ad l c ctx r ≡ l')
  unfolding run_liquidate
  run_liquidate-eq-ok c amount e =
      let (ctx, ctx_ok, e₁) = >>=-eq-ok (liquidate_context rt ad l c) _ e in
      let (r, r_ok, e₂) = >>=-eq-ok (liquidate rt ctx l.tokens clock amount) _ e₁ in
      (ctx, r, ctx_ok, r_ok, ok-inj e₂)

  pub run_init_user_stats-eq-ok :
      (user : Pubkey)
      → run_init_user_stats rt ad l clock user ≡ ok l'
      → (l.stats (ad.find (stats_seed user)) ≡ none)
        × (record l {
          stats =
              put l.stats
                (ad.find (stats_seed user))
                (init_user_stats user (ad.bump (stats_seed user)) clock);
        }
            ≡ l')
  unfolding run_init_user_stats
  run_init_user_stats-eq-ok user e =
      let (free, e₁) = >>-eq-ok (init l.stats (ad.find (stats_seed user))) _ e in
      (init-eq-ok _ _ free, ok-inj e₁)

  pub run_record_action-eq-ok :
      (user : Pubkey) (kind : ActionKind) (health_bps : ℕ)
      → run_record_action rt ad l clock user kind health_bps ≡ ok l'
      → (s : UserStats) × (r : UserStats × ActionRecorded) × (l.stats (ad.find (stats_seed user))
          ≡ some s)
        × (record_action user s clock kind health_bps ≡ ok r)
        × (record l { stats = put l.stats (ad.find (stats_seed user)) r.0 } ≡ l')
  unfolding run_record_action
  run_record_action-eq-ok user kind health_bps e =
      let (s, at, e₁) = >>=-eq-ok (ok_or (l.stats (ad.find (stats_seed user))) constraint) _ e in
      let (_, e₂) = >>-eq-ok (require_keys_eq s.bump (ad.bump (stats_seed user)) constraint) _ e₁ in
      let (r, done, e₃) = >>=-eq-ok (record_action user s clock kind health_bps) _ e₂ in
      (s, r, ok_or-eq-ok _ _ at, done, ok-inj e₃)

module _ (rt : Runtime) (ad : Addresses rt) (l : Ledger rt) {l' : Ledger rt} where
  pub run_set_claim_amount-eq-ok :
      (admin key amount : ℕ)
      → run_set_claim_amount rt ad l admin key amount ≡ ok l'
      → (m m' : Market) × (l.markets (ad.find (market_seed m.mint)) ≡ some m)
        × (set_claim_amount admin m amount ≡ ok m')
        × (record l { markets = put l.markets (ad.find (market_seed m.mint)) m' } ≡ l')
  unfolding run_set_claim_amount
  run_set_claim_amount-eq-ok admin key amount e =
      let (m, at, e₁) = >>=-eq-ok (market_at rt ad l key) _ e in
      let (m', set, e₂) = >>=-eq-ok (set_claim_amount admin m amount) _ e₁ in
      let (found, is_key) = market_at-eq-ok rt ad l key at in
      (m, m', rw is_key at found, set, rw is_key at (ok-inj e₂))
