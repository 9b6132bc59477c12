-- ===== src/Pricing/Worth.antt =====
-- About `token_usd_8dp` of programs/shadow-lend/src/lib.rs at prices whose scale is a negative power
-- of ten: the worth of an amount and of its parts.
use native.Mathlib.Nat.{one-le-pow}
use shadowlend.Prelude.{ℕ, suc, ◌+◌, ◌-◌, ◌*◌, ◌/◌, ◌^◌, ◌≤◌, ◌<◌, ◌≡◌, arith}
use shadowlend.Prelude.Int.{negsuc, pos_part}
use shadowlend.Machine.{u64_max}
use shadowlend.Machine.Division.{add-div-le, div-add-le, div-le_self}
use shadowlend.Result.{ok}
use shadowlend.State.{Price}
use shadowlend.Pricing.{shift_8dp, token_usd_8dp}
use shadowlend.Pricing.Value.{IsPriced, raw-le, token_usd_8dp_exact}

-- A price of an i64 for tokens whose scale is a negative power of ten down to -38.
pub record IsScaled (price : Price) (decimals n : ℕ) : Type 0 where
  pub fits : pos_part price.price ≤ 2 ^ 63 - 1
  pub shift : shift_8dp price.exponent decimals ≡ ok (negsuc n)
  pub small : n ≤ 37

-- The value of an amount, rounded down.
abbrev pub worth : Price → ℕ → ℕ → ℕ
worth price n amount = amount * pos_part price.price / 10 ^ suc n

module _ (price : Price) (decimals n : ℕ) (h : IsScaled price decimals n) where
  pub token_usd_8dp-worth :
      (amount : ℕ)
      → amount ≤ u64_max
      → token_usd_8dp amount price decimals ≡ ok (worth price n amount)
  token_usd_8dp-worth amount fits =
      let priced : IsPriced amount price = record { amount_fits = fits; price_fits = h.fits } in
      let raw = amount * pos_part price.price in
      token_usd_8dp_exact amount price decimals priced h.shift (omega (arith, h.small))
        (omega (arith, raw-le amount price priced, div-le_self raw (10 ^ suc n)))

  worth-add :
      (a b : ℕ)
      → (worth price n a + worth price n b ≤ worth price n (a + b))
        × (worth price n (a + b) ≤ worth price n a + worth price n b + 1)
  worth-add a b =
      let p = pos_part price.price in
      let some_d : 0 < 10 ^ suc n = one-le-pow (suc n) 10 (omega arith) in
      let sum : (a + b) * p ≡ a * p + b * p = omega arith in
      rw sum (
        add-div-le (a * p) (b * p) (10 ^ suc n) some_d,
        div-add-le (a * p) (b * p) (10 ^ suc n) some_d,
      )

  -- A part and the rest are worth the whole, or the least unit less.
  pub worth-split :
      (whole part : ℕ)
      → part ≤ whole
      → (worth price n (whole - part) + worth price n part ≤ worth price n whole)
        × (worth price n whole ≤ worth price n (whole - part) + worth price n part + 1)
  worth-split whole part fewer =
      let back : whole - part + part ≡ whole = omega arith in
      rw back at (worth-add (whole - part) part)
