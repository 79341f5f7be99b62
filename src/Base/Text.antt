-- ===== src/Base/Text.antt =====
-- `fmt.Sprintf("%d", n)`: the decimal digits of a number.
use Prim.Native.Nat.{ℕ, zero, suc, ◌/◌, ◌%◌}
use Prim.Native.String.{String, slice, ◌++◌ as ◌<>◌}
use operator_wordpress.Base.Tests.{ltb, if◌then◌else◌}
use operator_wordpress.Base.Int.{ℤ, pos, negsuc}

digit : ℕ → String
digit d = slice "0123456789" d (suc d)

-- With more fuel than the number has digits, every digit is printed.
show_digits : ℕ → ℕ → String
show_digits zero n = ""
show_digits (suc fuel) n =
    let high = show_digits fuel (n / 10) in if ltb n 10 then digit n else (high <> digit (n % 10))

unfoldable pub show_ℕ : ℕ → String
unfolding show_digits digit
show_ℕ n = show_digits (suc n) n

unfoldable pub show_ℤ : ℤ → String
unfolding show_ℕ
show_ℤ (pos n) = show_ℕ n
show_ℤ (negsuc n) = "-" <> show_ℕ (suc n)
