-- ===== src/Prelude/Text.antt =====
-- String literals as the bytes that C++ sees, and `std::to_string` of a number that is not negative.
use Prim.Native.Nat.{ℕ, zero, suc, ◌+◌, ◌/◌, ◌%◌}
use Prim.Native.Char.{code}
use Prim.Native.String.{String}
use mathlib.Core.List.{List, [], ◌∷◌, ◌++◌}
use tinykvcache.Prelude.Tests.{ltb, if◌then◌else◌}
use tinykvcache.Prelude.Int.{ℤ, pos, negsuc}

abbrev pub codes : String → List ℕ
codes String.[] = []
codes (String.◌∷◌ c s) = code c ∷ codes s

-- The digits of `n`, highest first, on fuel; a number has fewer digits than itself and one.
unfoldable pub decimal : ℕ → ℕ → List ℕ
decimal zero n = []
decimal (suc fuel) n =
    let high = decimal fuel (n / 10) in
    if ltb n 10 then (48 + n) ∷ [] else (high ++ ((48 + n % 10) ∷ []))

unfoldable pub to_string : ℕ → List ℕ
unfolding decimal
to_string n = decimal (suc n) n

unfoldable pub int_to_string : ℤ → List ℕ
unfolding to_string
int_to_string (pos n) = to_string n
int_to_string (negsuc n) = b'-' ∷ to_string (suc n)
