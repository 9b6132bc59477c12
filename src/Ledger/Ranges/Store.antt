-- ===== src/Ledger/Ranges/Store.antt =====
-- What it means that the stored accounts of programs/shadow-lend/src/lib.rs fit their Rust types, and the
-- writes that keep it.
use shadowlend.Prelude.{◌≤◌, ◌≡◌, inl, inr, some, arith, Option-cases}
use shadowlend.Machine.{u64_max}
use shadowlend.State.{Pubkey, Market, Position, UserStats, MarketAction}
use shadowlend.Runtime.{Runtime}
use shadowlend.Instructions.Accounts.{Modified}
use shadowlend.Ledger.{
  Addresses, Ledger, Store, put, context, write_back, position_seed, init_if_needed,
}
use shadowlend.Ledger.Call.{Call}
use shadowlend.Ledger.Inversion.{held}
use shadowlend.Ledger.Sound.{put_found}
use shadowlend.Ledger.Ranges.{u16_max, IsTypedMarket, IsTypedPosition, IsTypedStats, AreTyped}

-- All accounts of a store.
abbrev pub Every : {A : Type 0} → Store A → (A → Type 0) → Type 0
Every {A} store P = (k : Pubkey) (a : A) → store k ≡ some a → P a

pub put-Every :
    {A : Type 0} (store : Store A) (P : A → Type 0) (key : Pubkey) (a : A)
    → Every store P
    → P a
    → Every (put store key a) P
put-Every store P key a h new k b e = elim (put_found store key a k e) [
  | inl (_, same) ↦ rw (← same) new
  | inr (_, old) ↦ h k b old
]

-- Every stored number that the program computes or copies from its arguments fits its Rust type.
pub record IsTyped (rt : Runtime) (l : Ledger rt) : Type 0 where
  pub markets : Every l.markets IsTypedMarket
  pub positions : Every l.positions IsTypedPosition
  pub receipts : Every l.receipts (λ r. r.amount ≤ u64_max)
  pub stats : Every l.stats IsTypedStats

-- The arguments that a call stores fit their types.
abbrev pub IsTypedCall : {rt : Runtime} → Call rt → Type 0
IsTypedCall (Call.initialize_market admin mint claim ltv feed rate) =
    (claim ≤ u64_max) × (ltv ≤ u16_max) × (rate ≤ u64_max)
IsTypedCall (Call.set_claim_amount admin key amount) = amount ≤ u64_max
IsTypedCall (Call.record_action user kind health_bps) = health_bps ≤ u16_max
IsTypedCall _ = Unit {0}

module _ (rt : Runtime) (ad : Addresses rt) (l : Ledger rt) (h : IsTyped rt l) where
  pub held-IsTypedPosition : (user mint : Pubkey) → IsTypedPosition (held rt ad l user mint)
  unfolding init_if_needed
  held-IsTypedPosition user mint =
      elim (Option-cases (l.positions (ad.find (position_seed user mint)))) [
        | inl missing ↦ rw missing (ground arith)
        | inr (p, found) ↦ rw found (h.positions _ p found)
      ]

  pub write_back-IsTyped :
      (user mint : Pubkey) (m : Market) (p : Position) (r : Modified rt.Tokens MarketAction)
      → AreTyped r
      → IsTyped rt (write_back rt ad l (context rt ad user mint m p) r)
  unfolding write_back
  write_back-IsTyped user mint m p r (m_typed, p_typed) = record {
    markets = put-Every l.markets IsTypedMarket _ r.market h.markets m_typed;
    positions = put-Every l.positions IsTypedPosition _ r.position h.positions p_typed;
    receipts = h.receipts;
    stats = h.stats;
  }

  pub market-IsTyped :
      (key : Pubkey) (m : Market)
      → IsTypedMarket m
      → IsTyped rt (record l { markets = put l.markets key m })
  market-IsTyped key m typed = record {
    markets = put-Every l.markets IsTypedMarket key m h.markets typed;
    positions = h.positions;
    receipts = h.receipts;
    stats = h.stats;
  }

  pub stats-IsTyped :
      (key : Pubkey) (s : UserStats)
      → IsTypedStats s
      → IsTyped rt (record l { stats = put l.stats key s })
  stats-IsTyped key s typed = record {
    markets = h.markets;
    positions = h.positions;
    receipts = h.receipts;
    stats = put-Every l.stats IsTypedStats key s h.stats typed;
  }
