-- ===== src/Prelude/Int.antt =====
-- Go's signed integers: ℤ, its order tests, and the conversion to int32.
use Prim.Native.Nat.{ℕ, ◌-◌, ◌*◌, ◌%◌, ◌^◌}
use mathlib.Core.Bool.{Bool, true, false}
use provider_infrastructure.Prelude.Tests.{ltb, leb, if◌then◌else◌}

-- `negsuc n` is -(n + 1).
pub data ℤ : Type 0 where
  pos : ℕ → ℤ
  negsuc : ℕ → ℤ

abbrev pub is_negative : ℤ → Bool
is_negative (pos n) = false
is_negative (negsuc n) = true

-- The number is 0 or less.
abbrev pub is_nonpositive : ℤ → Bool
is_nonpositive (pos n) = leb n 0
is_nonpositive (negsuc n) = true

-- The number is above the bound, which is a natural number.
abbrev pub exceeds : ℤ → ℕ → Bool
exceeds (pos n) bound = ltb bound n
exceeds (negsuc n) bound = false

-- The low bits of a number in two's complement, where `half` is half of the modulus.
unfoldable pub wrap : ℕ → ℤ → ℤ
wrap half (pos n) =
    let low = n % (2 * half) in if ltb low half then pos low else negsuc (2 * half - low - 1)
wrap half (negsuc n) =
    let low = n % (2 * half) in if ltb low half then negsuc low else pos (2 * half - low - 1)

-- `int32(x)`
unfoldable pub to_int32 : ℤ → ℤ
unfolding wrap
to_int32 x = wrap (2 ^ 31) x

-- `time.Duration(n) * time.Millisecond` for a count of milliseconds that is not negative: an int64
-- product, which wraps.
unfoldable pub milliseconds : ℕ → ℤ
unfolding wrap
milliseconds n = wrap (2 ^ 63) (pos (n * 1_000_000))
