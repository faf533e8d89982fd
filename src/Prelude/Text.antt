-- ===== src/Prelude/Text.antt =====
-- The canonical text of a UUID: `str(id)`, 32 hexadecimal digits in groups of 8, 4, 4, 4 and 12.
use Prim.Native.Nat.{ℕ, zero, suc, ◌/◌, ◌%◌, ◌^◌}
use Prim.Native.String.{String, ◌++◌, slice}

-- one digit, out of the sixteen
digit : ℕ → String
digit n = slice "0123456789abcdef" n (suc n)

-- the last `k` digits of `n`
digits : ℕ → ℕ → String
unfolding digit
digits zero n = ""
digits (suc k) n = digits k (n / 16) ++ digit (n % 16)

unfoldable pub str : ℕ → String
unfolding digits
str n =
    digits 8 (n / 16 ^ 24)
    ++ ("-"
        ++ (digits 4 (n / 16 ^ 20)
            ++ ("-"
                ++ (digits 4 (n / 16 ^ 16)
                    ++ ("-" ++ (digits 4 (n / 16 ^ 12) ++ ("-" ++ digits 12 n)))))))
