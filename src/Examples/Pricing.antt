-- ===== src/Examples/Pricing.antt =====
-- Some unit tests of `token_usd_8dp` and `usd_8dp_to_token`, and the theorems at such inputs.
use shadowlend.Prelude.{ℕ, ◌*◌, ◌≤◌, ◌≡◌, refl, arith, ◌+◌}
use shadowlend.Prelude.Int.{pos, negsuc}
use shadowlend.Result.{ok}
use shadowlend.State.{Price}
use shadowlend.Pricing.{token_usd_8dp, usd_8dp_to_token}
use shadowlend.Pricing.Value.{scaled, token_usd_8dp_exact, token_usd_8dp_deep_shift}
use shadowlend.Pricing.RoundTrip.{usd_8dp_to_token-token_usd_8dp}
use shadowlend.Examples.World.{program, sol_price}

-- A price of no more than nothing, and one with an exponent of -40.
abbrev broken_price : Price
broken_price = record { price = negsuc 99; exponent = negsuc 7 }

abbrev tiny_price : Price
tiny_price = record { price = pos 5; exponent = negsuc 39 }

token_usd_basic_round_dollar : token_usd_8dp 1_000_000_000 sol_price 9 ≡ ok 10_000_000_000
unfolding program
token_usd_basic_round_dollar = refl

token_usd_btc_high_price :
    token_usd_8dp 1_000_000 (record { price = pos 8_000_000_000_000; exponent = negsuc 7 }) 9
    ≡ ok 8_000_000_000
unfolding program
token_usd_btc_high_price = refl

token_usd_negative_price_clamps_to_zero : token_usd_8dp 1_000_000_000 broken_price 9 ≡ ok 0
unfolding program
token_usd_negative_price_clamps_to_zero = refl

usd_to_token_zero_price_returns_zero : usd_8dp_to_token 1_000_000_000 broken_price 9 ≡ ok 0
unfolding program
usd_to_token_zero_price_returns_zero = refl

token_usd_8dp_exact_example :
    token_usd_8dp 1_234_567_891 sol_price 9
    ≡ ok (scaled (1_234_567_891 * 10_000_000_000) (negsuc 8))
unfolding program
token_usd_8dp_exact_example =
    token_usd_8dp_exact 1_234_567_891 sol_price 9 (omega arith) refl (omega arith) (omega arith)

usd_8dp_to_token-token_usd_8dp_example :
    (value : ℕ) × (back : ℕ) × (token_usd_8dp 1_234_567_890_000 sol_price 9 ≡ ok value)
    × (usd_8dp_to_token value sol_price 9 ≡ ok back)
    × (back ≤ 1_234_567_890_000)
    × (1_234_567_890_000 ≤ back + 1)
unfolding program
usd_8dp_to_token-token_usd_8dp_example =
    usd_8dp_to_token-token_usd_8dp 1_234_567_890_000 sol_price 9 8 (omega arith) refl (omega arith)
      (omega arith)

token_usd_8dp_deep_shift_example :
    (token_usd_8dp 1_000 tiny_price 9 ≡ ok (1_000 * 5)) × (scaled (1_000 * 5) (negsuc 40) ≡ 0)
unfolding program
token_usd_8dp_deep_shift_example =
    token_usd_8dp_deep_shift 1_000 tiny_price 9 40 (omega arith) refl (omega arith) (omega arith)
