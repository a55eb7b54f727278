-- ===== src/Base/Text.antt =====
-- Text as the program prints and tests it.
use Prim.Native.Nat.{ℕ, zero, suc, ◌-◌, ◌/◌, ◌%◌}
use Prim.Native.String.{String, ◌++◌, len, slice}
use mathlib.Core.Bool.{Bool, ◌&&◌}
use text.Mathlib.Text.{◌==◌}
use cotrex_ai.Base.Tests.{ltb, leb, if◌then◌else◌}

abbrev digit : ℕ → String
digit zero = "0"
digit (suc zero) = "1"
digit (suc (suc zero)) = "2"
digit (suc (suc (suc zero))) = "3"
digit (suc (suc (suc (suc zero)))) = "4"
digit (suc (suc (suc (suc (suc zero))))) = "5"
digit (suc (suc (suc (suc (suc (suc zero)))))) = "6"
digit (suc (suc (suc (suc (suc (suc (suc zero))))))) = "7"
digit (suc (suc (suc (suc (suc (suc (suc (suc zero)))))))) = "8"
digit _ = "9"

decimal : ℕ → ℕ → String
decimal zero n = ""
decimal (suc fuel) n =
    let front = decimal fuel (n / 10) in if ltb n 10 then digit n else front ++ digit (n % 10)

-- `{}` of a `u64`, which has at most 20 digits.
unfoldable pub show_u64 : ℕ → String
unfolding decimal
show_u64 n = decimal 20 n

-- `str::ends_with`
unfoldable pub ends_with : String → String → Bool
ends_with s t = leb (len t) (len s) && (slice s (len s - len t) (len s) == t)

-- `{}` of an `i32`, which is kept as its 32-bit pattern.
unfoldable pub show_i32 : ℕ → String
show_i32 bits = if ltb bits 2147483648 then show_u64 bits else "-" ++ show_u64 (4294967296 - bits)
