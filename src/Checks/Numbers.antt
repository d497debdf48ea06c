-- ===== src/Checks/Numbers.antt =====
-- How format strings write numbers.
use riscv_formal.Prelude.{
  ℕ, zero, suc, ◌+◌, ◌-◌, ◌/◌, ◌%◌, ◌==◌, ltb, [], ◌∷◌, ◌++◌, if◌then◌else◌, length,
}
use riscv_formal.Monitor.Rewrite.{Text}
use riscv_formal.Checks.Select.{decimal}

abbrev pub hex_digit : ℕ → ℕ
hex_digit d = if ltb d 10 then 48 + d else 55 + d

-- `{n:X}`, with the digits that are already there.
unfoldable pub hex_digits : ℕ → ℕ → Text → Text
hex_digits zero n ds = ds
hex_digits (suc fuel) n ds =
    let more = hex_digits fuel (n / 16) (hex_digit (n % 16) ∷ ds) in
    if n / 16 == 0 then hex_digit (n % 16) ∷ ds else more

abbrev pub zeros : ℕ → Text
zeros zero = []
zeros (suc n) = 48 ∷ zeros n

-- At least so many digits.
abbrev pub zero_pad : ℕ → Text → Text
zero_pad width ds = zeros (width - length ds) ++ ds

-- `{n:03X}`
unfoldable pub hex3 : ℕ → Text
unfolding hex_digits
hex3 n = zero_pad 3 (hex_digits (suc n) n [])

-- `{n:04d}`
unfoldable pub decimal4 : ℕ → Text
decimal4 n = zero_pad 4 (decimal n)
