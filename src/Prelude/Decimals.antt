-- ===== src/Prelude/Decimals.antt =====
-- `fmt.Sprintf("%v", n)` for integers: decimal digits.
use Prim.Native.Nat.{ℕ, zero, suc, ◌+◌, ◌/◌, ◌%◌}
use mathlib.Core.List.{[], ◌∷◌, ◌++◌}
use k8s_countermeasures.Prelude.Tests.{if◌then◌else◌, ltb}
use k8s_countermeasures.Prelude.Texts.{Text, codes}
use k8s_countermeasures.Prelude.Int.{ℤ, pos, negsuc}

-- A number has at most as many digits as it is large, and one.
unfoldable pub digits_fuel : ℕ → ℕ → Text
digits_fuel zero n = []
digits_fuel (suc fuel) n =
    let rest = digits_fuel fuel (n / 10) in
    if ltb n 10 then (48 + n) ∷ [] else rest ++ (48 + n % 10) ∷ []

unfoldable pub decimal : ℕ → Text
unfolding digits_fuel
decimal n = digits_fuel (suc n) n

unfoldable pub decimal_int : ℤ → Text
unfolding decimal
decimal_int (pos n) = decimal n
decimal_int (negsuc n) = codes "-" ++ decimal (suc n)
