-- ===== src/Examples/Layout.antt =====
-- An encoding with the widths of Borsh, and the sizes of the accounts that it writes.
use shadowlend.Prelude.{ℕ, zero, suc, ◌+◌, ◌≡◌, List, [], ◌∷◌, ◌++◌, refl, length}
use shadowlend.Prelude.Int.{ℤ, pos, pos_part}
use shadowlend.State.{ClaimReceipt, UserStats}
use shadowlend.State.Layout.{
  Borsh, BorshLaws, joined, market_size, position_size, claim_receipt_size, user_stats_size,
  accounts_fill,
}
use shadowlend.Examples.World.{sol, alice_sol}

-- The number in the first place, and zeros.
abbrev bytes : ℕ → ℕ → List ℕ
bytes zero n = []
bytes (suc w) n = n ∷ bytes w 0

abbrev stamp : ℤ → List ℕ
stamp z = bytes 8 (pos_part z)

abbrev plain : Borsh
plain = record {
  pubkey = bytes 32;
  bytes_32 = bytes 32;
  u8 = bytes 1;
  u16 = bytes 2;
  u64 = bytes 8;
  u128 = bytes 16;
  i64 = stamp;
  market = λ m.
      bytes 8 0
      ++ joined (
          bytes 32 m.admin
          ∷ bytes 32 m.mint
          ∷ bytes 8 m.amount_per_claim
          ∷ bytes 2 m.max_ltv_bps
          ∷ bytes 32 m.feed_id
          ∷ bytes 8 m.borrow_rate_per_slot_e18
          ∷ bytes 16 m.borrow_index_e18
          ∷ bytes 8 m.last_update_slot
          ∷ bytes 8 m.total_supplied
          ∷ bytes 8 m.total_borrowed
          ∷ bytes 8 m.claim_count
          ∷ bytes 1 m.bump
          ∷ bytes 1 m.authority_bump
          ∷ []);
  position = λ p.
      bytes 8 0
      ++ joined (
          bytes 32 p.user
          ∷ bytes 32 p.market
          ∷ bytes 8 p.supplied
          ∷ bytes 8 p.borrowed
          ∷ bytes 32 p.feed_id
          ∷ bytes 2 p.max_ltv_bps
          ∷ bytes 1 p.decimals
          ∷ bytes 1 p.bump
          ∷ bytes 16 p.borrow_index_snapshot_e18
          ∷ []);
  claim_receipt = λ r.
      bytes 8 0
      ++ joined (
          bytes 32 r.user
          ∷ bytes 32 r.mint
          ∷ bytes 8 r.amount
          ∷ stamp r.claimed_at
          ∷ bytes 1 r.bump
          ∷ []);
  user_stats = λ s.
      bytes 8 0
      ++ joined (
          bytes 32 s.user
          ∷ stamp s.created_at
          ∷ stamp s.last_action_at
          ∷ bytes 8 s.proofs_submitted
          ∷ bytes 8 s.supplies
          ∷ bytes 8 s.borrows
          ∷ bytes 8 s.repays
          ∷ bytes 8 s.liquidations
          ∷ bytes 2 s.last_health_bps
          ∷ bytes 1 s.bump
          ∷ []);
}

plain-BorshLaws : BorshLaws plain
plain-BorshLaws = record {
  pubkey = λ k. refl;
  bytes_32 = λ n. refl;
  u8 = λ n. refl;
  u16 = λ n. refl;
  u64 = λ n. refl;
  u128 = λ n. refl;
  i64 = λ z. refl;
  market = λ m. record { discriminator = bytes 8 0; eight = refl; whole = refl };
  position = λ p. record { discriminator = bytes 8 0; eight = refl; whole = refl };
  claim_receipt = λ r. record { discriminator = bytes 8 0; eight = refl; whole = refl };
  user_stats = λ s. record { discriminator = bytes 8 0; eight = refl; whole = refl };
}

abbrev receipt : ClaimReceipt
receipt = record { user = 7; mint = 101; amount = 5; claimed_at = pos 500; bump = 253 }

abbrev statistics : UserStats
statistics = record {
  user = 7;
  created_at = pos 400;
  last_action_at = pos 500;
  proofs_submitted = 3;
  supplies = 1;
  borrows = 1;
  repays = 1;
  liquidations = 0;
  last_health_bps = 9000;
  bump = 255;
}

accounts_fill_example :
    (length (plain.market sol) ≡ 8 + market_size)
    × (length (plain.position alice_sol) ≡ 8 + position_size)
    × (length (plain.claim_receipt receipt) ≡ 8 + claim_receipt_size)
    × (length (plain.user_stats statistics) ≡ 8 + user_stats_size)
accounts_fill_example = accounts_fill plain plain-BorshLaws sol alice_sol receipt statistics
