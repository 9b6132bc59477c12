-- ===== src/Machine/Division.antt =====
-- Order and rounding of floor division by a number that is not known.
use native.Mathlib.Nat.{
  div-lt_iff_lt-mul, le_of_mul-le-mul_right, le-div_iff_mul-le, div-mul-le_self, lt-div-mul-add,
}
pub use native.Mathlib.Nat.{div-le_self}
use shadowlend.Prelude.{ℕ, ◌+◌, ◌*◌, ◌/◌, ◌≤◌, ◌<◌, ◌≡◌, arith}

pub div-mul-le : (a c : ℕ) → a / c * c ≤ a
div-mul-le a c = div-mul-le_self a c

pub lt-div-mul : (a c : ℕ) → 0 < c → a < a / c * c + c
lt-div-mul a c h = lt-div-mul-add h

pub le-div : (a b c : ℕ) → 0 < c → a * c ≤ b → a ≤ b / c
le-div a b c h k = (le-div_iff_mul-le h).1 k

pub div-le : (a b c : ℕ) → 0 < c → b ≤ a * c → b / c ≤ a
div-le a b c h k = le_of_mul-le-mul_right (omega (arith, div-mul-le b c)) h

pub div_mono : (a b c : ℕ) → a ≤ b → a / c ≤ b / c
div_mono a b c h = grind arith

-- The floor of a sum is the sum of the floors, or one more than it.
pub add-div-le : (a b c : ℕ) → 0 < c → a / c + b / c ≤ (a + b) / c
add-div-le a b c h =
    let spread : (a / c + b / c) * c ≡ a / c * c + b / c * c = omega arith in
    le-div (a / c + b / c) (a + b) c h (omega (arith, div-mul-le a c, div-mul-le b c))

pub div-add-le : (a b c : ℕ) → 0 < c → (a + b) / c ≤ a / c + b / c + 1
div-add-le a b c h =
    let spread : (a / c + b / c + 2) * c ≡ a / c * c + c + (b / c * c + c) = omega arith in
    let below : a + b < (a / c + b / c + 2) * c =
      omega (arith, lt-div-mul a c h, lt-div-mul b c h) in
    let less : (a + b) / c < a / c + b / c + 2 = (div-lt_iff_lt-mul h).1 below in omega arith
