-- ===== src/Base/Decimal.antt =====
-- The decimal digits of a number: `%d` of Go's fmt.
use Prim.Native.Nat.{ℕ, zero, suc, ◌+◌, ◌-◌, ◌*◌, ◌/◌, ◌%◌, ◌<◌}
use Prim.Native.String.{String}
use Prim.Native.Char.{Char, code}
use mathlib.Core.Path.{◌≡◌, refl, sym, ap, ◌∙◌}
use mathlib.Core.Logic.{inl, inr}
use native.Mathlib.Omega.{arith}
use dra_driver_ovsdpdk_upstr.Base.Tests.{ltb, if◌then◌else◌, Bool-cases}

digit : ℕ → Char
digit zero = "0"
digit (suc zero) = "1"
digit (suc (suc zero)) = "2"
digit (suc (suc (suc zero))) = "3"
digit (suc (suc (suc (suc zero)))) = "4"
digit (suc (suc (suc (suc (suc zero))))) = "5"
digit (suc (suc (suc (suc (suc (suc zero)))))) = "6"
digit (suc (suc (suc (suc (suc (suc (suc zero))))))) = "7"
digit (suc (suc (suc (suc (suc (suc (suc (suc zero)))))))) = "8"
digit _ = "9"

-- The digits of `n` before `out`, the last one first; the number of rounds is bounded by the fuel.
emit : ℕ → ℕ → String → String
unfolding digit
emit zero n out = out
emit (suc fuel) n out =
    if ltb n 10
    then String.◌∷◌ (digit n) out
    else emit fuel (n / 10) (String.◌∷◌ (digit (n % 10)) out)

unfoldable pub decimal : ℕ → String
unfolding emit
decimal n = emit (suc n) n ""

-- The number that a row of digits stands for, after the digits read so far.
value : String → ℕ → ℕ
value String.[] n = n
value (String.◌∷◌ c s) n = value s (n * 10 + (code c - 48))

digit-code : (n : ℕ) → n < 10 → code (digit n) ≡ 48 + n
unfolding digit
digit-code zero h = refl
digit-code (suc zero) h = refl
digit-code (suc (suc zero)) h = refl
digit-code (suc (suc (suc zero))) h = refl
digit-code (suc (suc (suc (suc zero)))) h = refl
digit-code (suc (suc (suc (suc (suc zero))))) h = refl
digit-code (suc (suc (suc (suc (suc (suc zero)))))) h = refl
digit-code (suc (suc (suc (suc (suc (suc (suc zero))))))) h = refl
digit-code (suc (suc (suc (suc (suc (suc (suc (suc zero)))))))) h = refl
digit-code (suc (suc (suc (suc (suc (suc (suc (suc (suc n))))))))) h = omega arith

value-digit :
    (n m : ℕ) (out : String) → m < 10 → value (String.◌∷◌ (digit m) out) n ≡ value out (n * 10 + m)
unfolding value
value-digit n m out h = ap (value out) (omega (arith, digit-code m h))

-- The fuel is enough: one round for each digit.
value-emit : (fuel n : ℕ) (out : String) → n < fuel → value (emit fuel n out) 0 ≡ value out n
unfolding emit
value-emit zero n out h = absurd (omega arith)
value-emit (suc fuel) n out h = elim (Bool-cases (ltb n 10)) [
  | inl small ↦
      rw (small, emit) (value-digit 0 n out (ground (arith, small)) ∙ ap (value out) (omega arith))
  | inr large ↦
      rw (large, emit)
        (value-emit fuel (n / 10) (String.◌∷◌ (digit (n % 10)) out) (ground (arith, large))
          ∙ value-digit (n / 10) (n % 10) out (omega arith)
          ∙ ap (value out) (omega arith))
]

-- Two numbers of the same digits are the same.
pub decimal_injective : (m n : ℕ) → decimal m ≡ decimal n → m ≡ n
unfolding decimal value
decimal_injective m n e =
    sym (value-emit (suc m) m "" (omega arith))
    ∙ ap (λ s. value s 0) e
    ∙ value-emit (suc n) n "" (omega arith)

decimal_example : decimal 1024 ≡ "1024"
unfolding decimal
decimal_example = refl
