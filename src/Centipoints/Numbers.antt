-- ===== src/Centipoints/Numbers.antt =====
-- `centipointsToNumber` and `sumCentipoints`. A JavaScript number that holds a whole amount is a
-- double: `Number(x)` of a bigint is the nearest multiple of a power of two with 53 significant
-- bits, ties to even. The halvings that bring 2^53 within reach are counted with fuel 1024, beyond
-- which `Number` is infinite; a BIGINT column needs 11 of them at most.
use jito_india_game.Prelude.{
  List, Option, [], if◌then◌else◌, ltb, none, some, suc, zero, ℕ, ◌%◌, ◌&&◌, ◌*◌, ◌+◌, ◌/◌, ◌==◌,
  ◌^◌, ◌||◌, ◌∷◌,
}
use jito_india_game.Prelude.Int.{negsuc, pos, ℤ, ◌+ℤ◌, ◌-ℤ◌}

-- Number.MAX_SAFE_INTEGER
abbrev pub max_safe_integer : ℕ
max_safe_integer = 9007199254740991

-- How many low bits a double of this size has no room for.
unfoldable pub excess_bits : ℕ → ℕ → ℕ
excess_bits zero n = 0
excess_bits (suc fuel) n =
    let rest = suc (excess_bits fuel (n / 2)) in if ltb n 9007199254740992 then 0 else rest

-- Rounds `n` to a multiple of `step`, ties to the even multiple.
unfoldable pub round_to_even : ℕ → ℕ → ℕ
round_to_even step n =
    let q = n / step in
    let twice = 2 * (n % step) in
    if ltb step twice || (twice == step && (q % 2) == 1) then (q + 1) * step else q * step

unfoldable pub nearest_double : ℕ → ℕ
unfolding excess_bits round_to_even
nearest_double n = round_to_even (2 ^ excess_bits 1024 n) n

unfoldable pub centipoints_to_number : ℤ → ℤ
centipoints_to_number (pos n) = pos (nearest_double n)
centipoints_to_number (negsuc n) = pos 0 -ℤ pos (nearest_double (n + 1))

-- `minor === null ? null : Number(minor)`
unfoldable pub centipoints_or_null : Option ℤ → Option ℤ
unfolding centipoints_to_number
centipoints_or_null none = none
centipoints_or_null (some minor) = some (centipoints_to_number minor)

-- values.reduce((acc, v) => acc + v, 0n)
unfoldable pub sum_centipoints_from : ℤ → List ℤ → ℤ
sum_centipoints_from acc [] = acc
sum_centipoints_from acc (v ∷ values) = sum_centipoints_from (acc +ℤ v) values

unfoldable pub sum_centipoints : List ℤ → ℤ
unfolding sum_centipoints_from
sum_centipoints values = sum_centipoints_from (pos 0) values
