-- ===== src/Examples/Accounts.antt =====
-- Addresses for the concrete runtime: different seeds have different numbers.
use native.Mathlib.Nat.{mul-le-mul}
use shadowlend.Prelude.{
  if◌then◌else◌, ◌==◌, ◌/◌, ◌%◌, ◌-◌, ℕ, ◌+◌, ◌*◌, ◌≤◌, ◌<◌, ◌≡◌, sym, ◌∙◌, refl, arith,
}
use shadowlend.Ledger.{
  Seeds, Addresses, AddressLaws, VaultLaws, market_seed, auth_seed, vault_seed, claim_seed,
  position_seed, stats_seed,
}
use mathlib.Core.Option.{some-injective}
use shadowlend.Runtime.{MintLaws}
use shadowlend.Ledger.Solvency.Seizure.{IsWallet}
use shadowlend.Examples.World.{sample}

abbrev pair : ℕ → ℕ → ℕ
pair a b = (a + b) * (a + b) + a

square-lt : (a s t : ℕ) → a ≤ s → s < t → s * s + a < t * t
square-lt a s t small less =
    let more : (s + 1) * (s + 1) ≤ t * t = mul-le-mul (omega arith) (omega arith) in
    omega (arith, more)

pair_injective : (a b c d : ℕ) → pair a b ≡ pair c d → (a ≡ c) × (b ≡ d)
pair_injective a b c d e = ground (arith, square-lt a (a + b) (c + d), square-lt c (c + d) (a + b))

abbrev tag : Seeds → ℕ
tag (market_seed m) = 0
tag (auth_seed m) = 1
tag (vault_seed m) = 2
tag (claim_seed u m) = 3
tag (position_seed u m) = 4
tag (stats_seed u) = 5

abbrev first : Seeds → ℕ
first (market_seed m) = m
first (auth_seed m) = m
first (vault_seed m) = m
first (claim_seed u m) = u
first (position_seed u m) = u
first (stats_seed u) = u

abbrev second : Seeds → ℕ
second (claim_seed u m) = m
second (position_seed u m) = m
second _ = 0

seeds_from : ℕ → ℕ → ℕ → Seeds
seeds_from n a b =
    if n == 0
    then market_seed a
    else if n == 1
    then auth_seed a
    else if n == 2
    then vault_seed a
    else if n == 3
    then claim_seed a b
    else if n == 4
    then position_seed a b
    else stats_seed a

seeds_back : (s : Seeds) → seeds_from (tag s) (first s) (second s) ≡ s
unfolding seeds_from
seeds_back (market_seed m) = refl
seeds_back (auth_seed m) = refl
seeds_back (vault_seed m) = refl
seeds_back (claim_seed u m) = refl
seeds_back (position_seed u m) = refl
seeds_back (stats_seed u) = refl

tag-lt : (s : Seeds) → tag s < 6
tag-lt s = ground arith

abbrev pub sample_addresses : Addresses sample
sample_addresses = record {
  find = λ s. 8 * pair (first s) (second s) + tag s;
  bump = λ s. 250 + tag s;
  associated_token = λ user mint. 8 * (1_000_000 * mint + user) + 6;
  token_mint = λ tokens k. k / 8_000_000;
  token_owner = λ tokens k. if k % 8 == 2 then k - 1 else k / 8 % 1_000_000;
}

pub sample-AddressLaws : AddressLaws sample sample_addresses
sample-AddressLaws = record {
  find_injective = λ s t e.
      let tags : tag s ≡ tag t = omega (arith, tag-lt s, tag-lt t) in
      let pairs : pair (first s) (second s) ≡ pair (first t) (second t) =
        omega (arith, tag-lt s, tag-lt t) in
      let (firsts, seconds) = pair_injective (first s) (second s) (first t) (second t) pairs in
      sym (seeds_back s) ∙ rw (tags, firsts, seconds) (seeds_back t);
}

pub sample-VaultLaws : VaultLaws sample sample_addresses
sample-VaultLaws = record {
  associated_apart = λ user mint s e. omega (arith, tag-lt s);
  vault_owner = λ tokens mint. ground arith;
}

pub sample-MintLaws : MintLaws sample
sample-MintLaws = record {
  keeps = λ t t' c n k e. let same = some-injective _ _ e in rw (← same) (ground arith);
}

-- A number that leaves 7 when divided by 8 is a wallet.
pub sevens-IsWallet : (k : ℕ) → k % 8 ≡ 7 → IsWallet sample sample_addresses k
sevens-IsWallet k h s e = omega (arith, tag-lt s)
