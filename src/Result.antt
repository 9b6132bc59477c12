-- ===== src/Result.antt =====
-- The errors of programs/shadow-lend/src/lib.rs (`MarketError`, `StatsError`) and its `Result`.
-- An instruction that ends in an error leaves every account as it was: the transaction is undone.
use shadowlend.Prelude.{
  ℕ, ◌==◌, ◌≡◌, refl, ◌⊎◌, inl, inr, Bool, true, false, Option, none, some, if◌then◌else◌, arith,
}

pub data MarketError : Type 0 where
  not_admin mint_mismatch bad_ltv zero_amount exceeds_ltv would_be_unhealthy : MarketError
  insufficient_collateral insufficient_liquidity nothing_to_repay overflow : MarketError
  bad_remaining_accounts bad_position_account bad_price_feed stale_price : MarketError
  same_mint_borrow position_healthy nothing_to_liquidate self_liquidation : MarketError
  unauthorized : MarketError

pub data StatsError : Type 0 where
  unauthorized overflow : StatsError

-- What can end an instruction: an error of the program's own, a failed call of the token program,
-- an account constraint that Anchor checks and that names no error of the program, or a panic
-- (the release profile has `overflow-checks = true`).
pub data Error : Type 0 where
  market : MarketError → Error
  stats : StatsError → Error
  token : Error
  constraint : Error
  panic : Error

-- Anchor's `Result<T>`
pub data Result {ℓ} (T : Type ℓ) : Type ℓ where
  err : Error → Result T
  ok : T → Result T

module _ {ℓ κ} {S : Type ℓ} {T : Type κ} where
  infixl 5 ◌>>=◌
  abbrev pub ◌>>=◌ : Result S → (S → Result T) → Result T
  err why >>= rest = err why
  ok value >>= rest = rest value

module _ {ℓ} {T : Type ℓ} where
  infixl 5 ◌>>◌
  abbrev pub ◌>>◌ : Result (Unit {0}) → Result T → Result T
  step >> rest = step >>= λ _. rest

-- `require!(b, e)`
abbrev pub require : Bool → MarketError → Result (Unit {0})
require true e = ok tt
require false e = err (market e)

-- `require_keys_eq!(a, b, e)`
abbrev pub require_keys_eq : ℕ → ℕ → Error → Result (Unit {0})
require_keys_eq a b e = if a == b then ok tt else err e

-- `o.ok_or(e)?`
abbrev pub ok_or {ℓ} : {A : Type ℓ} → Option A → Error → Result A
ok_or none e = err e
ok_or (some a) e = ok a

-- What the parts of a handler that returns have returned.
module _ {ℓ κ} {S : Type ℓ} {T : Type κ} where
  pub >>=-eq-ok :
      (step : Result S) (rest : S → Result T) {t : T}
      → step >>= rest ≡ ok t
      → (s : S) × (step ≡ ok s) × (rest s ≡ ok t)
  >>=-eq-ok (err why) rest eq = cc
  >>=-eq-ok (ok s) rest eq = (s, refl, eq)

module _ {ℓ} {T : Type ℓ} where
  pub >>-eq-ok :
      (step : Result (Unit {0})) (rest : Result T) {t : T}
      → step >> rest ≡ ok t
      → (step ≡ ok tt) × (rest ≡ ok t)
  >>-eq-ok (err why) rest eq = cc
  >>-eq-ok (ok tt) rest eq = (refl, eq)

  pub ok_or-eq-ok : (o : Option T) (e : Error) {t : T} → ok_or o e ≡ ok t → o ≡ some t
  ok_or-eq-ok (some t) e eq = ground arith
  ok_or-eq-ok none e eq = cc

  pub Result-cases : (r : Result T) → ((e : Error) × (r ≡ err e)) ⊎ ((t : T) × (r ≡ ok t))
  Result-cases (err e) = inl (e, refl)
  Result-cases (ok t) = inr (t, refl)

pub require-eq-ok : (b : Bool) (e : MarketError) → require b e ≡ ok tt → b ≡ true
require-eq-ok false e eq = cc
require-eq-ok true e eq = refl

pub ok-inj {ℓ} : {T : Type ℓ} {s t : T} → ok s ≡ ok t → s ≡ t
ok-inj eq = ground arith

pub require_keys_eq-eq-ok : (a b : ℕ) (e : Error) → require_keys_eq a b e ≡ ok tt → a ≡ b
require_keys_eq-eq-ok a b e eq = ground arith
