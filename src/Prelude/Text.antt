-- ===== src/Prelude/Text.antt =====
-- Text that the program walks, as a list of code points.
use Prim.Native.Char.{code}
use Prim.Native.String.{String}
use Prim.Native.Nat.{ℕ, zero, suc, ◌+◌, ◌%◌, ◌/◌}
use mathlib.Core.Path.{◌≡◌, refl}
use roboplc_middle.Prelude.Tests.{ltb, if◌then◌else◌}
use mathlib.Core.List.{List, [], ◌∷◌}

-- The code points of a text. `String` has its own `[]` and `∷`.
abbrev pub codes : String → List ℕ
codes String.[] = []
codes (String.◌∷◌ c s) = code c ∷ codes s

-- The decimal digits of `n` before the text `rest`, for as many digits as `fuel` allows.
unfoldable pub digits_before : ℕ → ℕ → List ℕ → List ℕ
digits_before zero n rest = rest
digits_before (suc fuel) n rest =
    let longer = digits_before fuel (n / 10) ((b'0' + n % 10) ∷ rest) in
    if ltb n 10 then (b'0' + n) ∷ rest else longer

-- `{}` of an unsigned integer; 20 digits are enough for 64 bits.
abbrev pub decimal : ℕ → List ℕ
unfolding digits_before
decimal n = digits_before 20 n []

decimal_example : decimal 10502 ≡ codes "10502"
unfolding digits_before
decimal_example = refl
