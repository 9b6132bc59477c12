-- ===== src/Ledger/Claims.antt =====
-- `claim_faucet` of programs/shadow-lend/src/lib.rs in a run: one claim for a wallet and a mint.
use shadowlend.Prelude.{ℕ, ◌≡◌, ◌≢◌, ◌⊎◌, ◌∙◌, ap, sym, inl, inr, none, some}
use shadowlend.Result.{ok}
use shadowlend.State.{Pubkey, Clock, ClaimReceipt}
use shadowlend.Runtime.{Runtime}
use shadowlend.Ledger.{Addresses, Ledger, Store, put, claim_seed, write_back}
use shadowlend.Ledger.Call.{Call}
use shadowlend.Ledger.Execute.{run_claim_faucet, execute, write_liquidated}
use shadowlend.Ledger.Sound.{put_here, put_elsewhere, eq_or_ne}
use shadowlend.Ledger.Inversion.{
  run_supply-eq-ok, run_repay-eq-ok, run_withdraw-eq-ok, run_borrow-eq-ok,
}
use shadowlend.Ledger.Inversion.Upkeep.{
  run_initialize_market-eq-ok, run_set_claim_amount-eq-ok, run_claim_faucet-eq-ok,
  run_liquidate-eq-ok, run_init_user_stats-eq-ok, run_record_action-eq-ok,
}

-- An account is stored under the key.
abbrev pub Holds : {A : Type 0} → Store A → Pubkey → Type 0
Holds {A} store key = (a : A) × (store key ≡ some a)

put-Holds :
    {A : Type 0} (store : Store A) (key : Pubkey) (a : A) {k : Pubkey}
    → Holds store k
    → Holds (put store key a) k
put-Holds store key a {k} (b, held) = elim (eq_or_ne k key) [
  | inl same ↦ (a, rw same (put_here store key a))
  | inr apart ↦ (b, put_elsewhere store key a k apart ∙ held)
]

module _ (rt : Runtime) (ad : Addresses rt) where
  -- Calls, and whatever else happens to the tokens, between two ledgers.
  pub data Later : Ledger rt → Ledger rt → Type 0 where
    same : {l : Ledger rt} → Later l l
    executed :
        {l l' l'' : Ledger rt}
        → Later l l'
        → (clock : Clock) (call : Call rt) → execute rt ad l' clock call ≡ ok l''
        → Later l l''
    elsewhere :
        {l l' : Ledger rt}
        → Later l l'
        → (tokens : rt.Tokens) → Later l (record l' { tokens = tokens })

  same_receipts : {l l' : Ledger rt} → l ≡ l' → l'.receipts ≡ l.receipts
  same_receipts eq = ap (λ (x : Ledger rt). x.receipts) (sym eq)

  -- A claim finds no receipt under its address and leaves one.
  claim-run :
      (l l' : Ledger rt) (clock : Clock) (user mint : ℕ)
      → run_claim_faucet rt ad l clock user mint ≡ ok l'
      → (l.receipts (ad.find (claim_seed user mint)) ≡ none)
        × (r : ClaimReceipt) × (l'.receipts ≡ put l.receipts (ad.find (claim_seed user mint)) r)
  claim-run l l' clock user mint e =
      let (_, r, _, free, _, writes) = run_claim_faucet-eq-ok rt ad l clock user mint e in
      (free, r.receipt, same_receipts writes)

  -- The receipts after a call are those before it, but for the one that a claim adds.
  execute_receipts :
      (l l' : Ledger rt) (clock : Clock) (call : Call rt)
      → execute rt ad l clock call ≡ ok l'
      → (l'.receipts ≡ l.receipts)
        ⊎ ((k : Pubkey) × (r : ClaimReceipt) × (l'.receipts ≡ put l.receipts k r))
  unfolding execute write_back write_liquidated
  execute_receipts l l' clock (Call.initialize_market admin mint claim ltv feed rate) e =
      let (_, _, _, writes) =
        run_initialize_market-eq-ok rt ad l clock admin mint claim ltv feed rate e in
      inl (same_receipts writes)
  execute_receipts l l' clock (Call.set_claim_amount admin key amount) e =
      let (_, _, _, _, writes) = run_set_claim_amount-eq-ok rt ad l admin key amount e in
      inl (same_receipts writes)
  execute_receipts l l' clock (Call.claim_faucet user mint) e =
      let (_, r, added) = claim-run l l' clock user mint e in
      inr (ad.find (claim_seed user mint), r, added)
  execute_receipts l l' clock (Call.supply user mint amount) e =
      let (_, _, _, _, writes) = run_supply-eq-ok rt ad l clock user mint amount e in
      inl (same_receipts writes)
  execute_receipts l l' clock (Call.repay user mint amount) e =
      let (_, _, _, _, writes) = run_repay-eq-ok rt ad l clock user mint amount e in
      inl (same_receipts writes)
  execute_receipts l l' clock (Call.withdraw user mint amount update remaining) e =
      let (_, _, _, _, _, _, writes) =
        run_withdraw-eq-ok rt ad l clock user mint amount update remaining e in
      inl (same_receipts writes)
  execute_receipts l l' clock (Call.borrow user mint amount update remaining) e =
      let (_, _, _, _, _, _, writes) =
        run_borrow-eq-ok rt ad l clock user mint amount update remaining e in
      inl (same_receipts writes)
  execute_receipts l l' clock (Call.liquidate c amount) e =
      let (_, _, _, _, writes) = run_liquidate-eq-ok rt ad l clock c amount e in
      inl (same_receipts writes)
  execute_receipts l l' clock (Call.init_user_stats user) e =
      let (_, writes) = run_init_user_stats-eq-ok rt ad l clock user e in inl (same_receipts writes)
  execute_receipts l l' clock (Call.record_action user kind health_bps) e =
      let (_, _, _, _, writes) = run_record_action-eq-ok rt ad l clock user kind health_bps e in
      inl (same_receipts writes)

  Later-Holds :
      {l l' : Ledger rt} {k : Pubkey} → Later l l' → Holds l.receipts k → Holds l'.receipts k
  Later-Holds same held = held
  Later-Holds {k = k} (executed {l' = l'} {l'' = l''} before clock call e) held =
      let old = Later-Holds before held in
      elim (execute_receipts l' l'' clock call e) [
        | inl kept ↦ rw kept old
        | inr (key, r, added) ↦ rw added (put-Holds l'.receipts key r old)
      ]
  Later-Holds (elsewhere before tokens) held = Later-Holds before held

  -- Once a wallet has claimed the token of a mint, no claim of that wallet for that mint succeeds,
  -- at any time, whatever calls are made and whatever happens to the tokens in between.
  pub claim_faucet_once :
      (l l' l'' l''' : Ledger rt) (clock later : Clock) (user mint : ℕ)
      → run_claim_faucet rt ad l clock user mint ≡ ok l'
      → Later l' l''
      → run_claim_faucet rt ad l'' later user mint ≢ ok l'''
  claim_faucet_once l l' l'' l''' clock later user mint e between again =
      let key = ad.find (claim_seed user mint) in
      let (_, r, added) = claim-run l l' clock user mint e in
      let left : Holds l'.receipts key = (r, rw added (put_here l.receipts key r)) in
      let (r', held) = Later-Holds between left in
      cc (held, (claim-run l'' l''' later user mint again).0)
