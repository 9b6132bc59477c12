-- ===== src/State/Layout.antt =====
-- The `SIZE` constants of programs/shadow-lend/src/lib.rs, which `init` gives the accounts with eight
-- bytes for Anchor's discriminator. Borsh and Anchor, which write the accounts, are parameters.
use shadowlend.Prelude.{ℕ, ◌+◌, ◌≡◌, List, [], ◌∷◌, ◌++◌, length, length-append, arith, ap, refl}
use shadowlend.Prelude.Int.{ℤ}
use shadowlend.State.{Pubkey, Market, Position, ClaimReceipt, UserStats}

abbrev pub market_size : ℕ
market_size = 32 + 32 + 8 + 2 + 32 + 8 + 16 + 8 + 8 + 8 + 8 + 1 + 1

abbrev pub position_size : ℕ
position_size = 32 + 32 + 8 + 8 + 32 + 2 + 1 + 1 + 16

abbrev pub claim_receipt_size : ℕ
claim_receipt_size = 32 + 32 + 8 + 8 + 1

abbrev pub user_stats_size : ℕ
user_stats_size = 32 + 8 + 8 + 8 + 8 + 8 + 8 + 8 + 2 + 1

-- The bytes that Borsh writes for a field of each type, and Anchor for an account of each struct.
pub record Borsh : Type 0 where
  pub pubkey : Pubkey → List ℕ
  pub bytes_32 : ℕ → List ℕ
  pub u8 : ℕ → List ℕ
  pub u16 : ℕ → List ℕ
  pub u64 : ℕ → List ℕ
  pub u128 : ℕ → List ℕ
  pub i64 : ℤ → List ℕ
  pub market : Market → List ℕ
  pub position : Position → List ℕ
  pub claim_receipt : ClaimReceipt → List ℕ
  pub user_stats : UserStats → List ℕ

abbrev pub joined : List (List ℕ) → List ℕ
joined [] = []
joined (field ∷ fields) = field ++ joined fields

abbrev total_length : List (List ℕ) → ℕ
total_length [] = 0
total_length (field ∷ fields) = length field + total_length fields

length-joined : (fields : List (List ℕ)) → length (joined fields) ≡ total_length fields
length-joined [] = refl
length-joined (field ∷ fields) =
    omega (arith, length-append field (joined fields), length-joined fields)

-- Bytes that begin with a discriminator of eight bytes and go on with the fields in order.
pub record IsAccountOf (bytes : List ℕ) (fields : List (List ℕ)) : Type 0 where
  pub discriminator : List ℕ
  pub eight : length discriminator ≡ 8
  pub whole : bytes ≡ discriminator ++ joined fields

length-IsAccountOf :
    {bytes : List ℕ} {fields : List (List ℕ)}
    → IsAccountOf bytes fields
    → length bytes ≡ 8 + total_length fields
length-IsAccountOf {bytes} {fields} h = omega (
  arith,
  h.eight,
  ap length h.whole,
  length-append h.discriminator (joined fields),
  length-joined fields,
)

-- The widths of the types, and the accounts as their structs declare them.
pub record BorshLaws (b : Borsh) : Type 0 where
  pub pubkey : (k : Pubkey) → length (b.pubkey k) ≡ 32
  pub bytes_32 : (n : ℕ) → length (b.bytes_32 n) ≡ 32
  pub u8 : (n : ℕ) → length (b.u8 n) ≡ 1
  pub u16 : (n : ℕ) → length (b.u16 n) ≡ 2
  pub u64 : (n : ℕ) → length (b.u64 n) ≡ 8
  pub u128 : (n : ℕ) → length (b.u128 n) ≡ 16
  pub i64 : (z : ℤ) → length (b.i64 z) ≡ 8
  pub market :
      (m : Market)
      → IsAccountOf (b.market m) (
          b.pubkey m.admin
          ∷ b.pubkey m.mint
          ∷ b.u64 m.amount_per_claim
          ∷ b.u16 m.max_ltv_bps
          ∷ b.bytes_32 m.feed_id
          ∷ b.u64 m.borrow_rate_per_slot_e18
          ∷ b.u128 m.borrow_index_e18
          ∷ b.u64 m.last_update_slot
          ∷ b.u64 m.total_supplied
          ∷ b.u64 m.total_borrowed
          ∷ b.u64 m.claim_count
          ∷ b.u8 m.bump
          ∷ b.u8 m.authority_bump
          ∷ [])
  pub position :
      (p : Position)
      → IsAccountOf (b.position p) (
          b.pubkey p.user
          ∷ b.pubkey p.market
          ∷ b.u64 p.supplied
          ∷ b.u64 p.borrowed
          ∷ b.bytes_32 p.feed_id
          ∷ b.u16 p.max_ltv_bps
          ∷ b.u8 p.decimals
          ∷ b.u8 p.bump
          ∷ b.u128 p.borrow_index_snapshot_e18
          ∷ [])
  pub claim_receipt :
      (r : ClaimReceipt)
      → IsAccountOf (b.claim_receipt r) (
          b.pubkey r.user
          ∷ b.pubkey r.mint
          ∷ b.u64 r.amount
          ∷ b.i64 r.claimed_at
          ∷ b.u8 r.bump
          ∷ [])
  pub user_stats :
      (s : UserStats)
      → IsAccountOf (b.user_stats s) (
          b.pubkey s.user
          ∷ b.i64 s.created_at
          ∷ b.i64 s.last_action_at
          ∷ b.u64 s.proofs_submitted
          ∷ b.u64 s.supplies
          ∷ b.u64 s.borrows
          ∷ b.u64 s.repays
          ∷ b.u64 s.liquidations
          ∷ b.u16 s.last_health_bps
          ∷ b.u8 s.bump
          ∷ [])

module _ (b : Borsh) (laws : BorshLaws b) where
  length-market : (m : Market) → length (b.market m) ≡ 8 + market_size
  length-market m = omega (
    arith,
    length-IsAccountOf (laws.market m),
    laws.pubkey m.admin,
    laws.pubkey m.mint,
    laws.u64 m.amount_per_claim,
    laws.u16 m.max_ltv_bps,
    laws.bytes_32 m.feed_id,
    laws.u64 m.borrow_rate_per_slot_e18,
    laws.u128 m.borrow_index_e18,
    laws.u64 m.last_update_slot,
    laws.u64 m.total_supplied,
    laws.u64 m.total_borrowed,
    laws.u64 m.claim_count,
    laws.u8 m.bump,
    laws.u8 m.authority_bump,
  )

  length-position : (p : Position) → length (b.position p) ≡ 8 + position_size
  length-position p = omega (
    arith,
    length-IsAccountOf (laws.position p),
    laws.pubkey p.user,
    laws.pubkey p.market,
    laws.u64 p.supplied,
    laws.u64 p.borrowed,
    laws.bytes_32 p.feed_id,
    laws.u16 p.max_ltv_bps,
    laws.u8 p.decimals,
    laws.u8 p.bump,
    laws.u128 p.borrow_index_snapshot_e18,
  )

  length-claim_receipt : (r : ClaimReceipt) → length (b.claim_receipt r) ≡ 8 + claim_receipt_size
  length-claim_receipt r = omega (
    arith,
    length-IsAccountOf (laws.claim_receipt r),
    laws.pubkey r.user,
    laws.pubkey r.mint,
    laws.u64 r.amount,
    laws.i64 r.claimed_at,
    laws.u8 r.bump,
  )

  length-user_stats : (s : UserStats) → length (b.user_stats s) ≡ 8 + user_stats_size
  length-user_stats s = omega (
    arith,
    length-IsAccountOf (laws.user_stats s),
    laws.pubkey s.user,
    laws.i64 s.created_at,
    laws.i64 s.last_action_at,
    laws.u64 s.proofs_submitted,
    laws.u64 s.supplies,
    laws.u64 s.borrows,
    laws.u64 s.repays,
    laws.u64 s.liquidations,
    laws.u16 s.last_health_bps,
    laws.u8 s.bump,
  )

  -- Where Borsh has the documented widths and Anchor writes the fields in order after a discriminator,
  -- the bytes of every market, position, receipt and statistics account exactly fill the space that
  -- `init` gives: eight and the `SIZE` of the struct.
  pub accounts_fill :
      (m : Market) (p : Position) (r : ClaimReceipt) (s : UserStats)
      → (length (b.market m) ≡ 8 + market_size)
        × (length (b.position p) ≡ 8 + position_size)
        × (length (b.claim_receipt r) ≡ 8 + claim_receipt_size)
        × (length (b.user_stats s) ≡ 8 + user_stats_size)
  accounts_fill m p r s =
      (length-market m, length-position p, length-claim_receipt r, length-user_stats s)
