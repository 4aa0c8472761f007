-- ===== src/Util/Replace.antt =====
-- `str_replace` of cpp/util.cpp.
pub mod Laws
mod Examples
use vae_thrift.Prelude.{
  ℕ, zero, suc, ◌+◌, ◌-◌, ◌%◌, ◌^◌, ◌==◌, ltb, if◌then◌else◌, Bool, false, Option, none, some, List,
  [], ◌∷◌, ◌++◌, length, drop, get_or, take,
}
use vae_thrift.Prelude.Int.{ℤ, pos, negsuc, pos_part}
use vae_thrift.Prelude.Bytes.{Bytes}
use vae_thrift.Exec.{Result, ok, diverges}

-- The inner loop: how many bytes of `search` stand at the head of `s`.
unfoldable pub match_length : Bytes → Bytes → ℕ
match_length [] s = 0
match_length (c ∷ search) [] = 0
match_length (c ∷ search) (d ∷ s) =
    let more = match_length search s in if d == c then suc more else 0

-- `int sealeng = search.length()`: the length modulo 2^32, as a signed number.
unfoldable pub int_length : Bytes → ℤ
int_length s =
    let w = length s % 2 ^ 32 in if ltb w (2 ^ 31) then pos w else negsuc (2 ^ 32 - suc w)

-- `j == sealeng`
abbrev pub is_int : ℕ → ℤ → Bool
is_int j (pos n) = j == n
is_int j (negsuc n) = false

-- The outer loop from position `i`, with fuel. Of `search` and `subject` it reads the bytes below
-- `sealeng` and `strleng`, and only these are passed here.
unfoldable pub replace_loop : ℤ → Bytes → Bytes → Bytes → ℕ → ℕ → Bytes → Result Bytes
replace_loop sealeng search replace subject zero i buffer =
    if ltb i (length subject) then diverges else ok buffer
replace_loop sealeng search replace subject (suc fuel) i buffer =
    let found =
      replace_loop sealeng search replace subject fuel (i + pos_part sealeng) (buffer ++ replace) in
    let other =
      replace_loop sealeng search replace subject fuel (i + 1)
        (buffer ++ take 1 (drop i subject)) in
    if ltb i (length subject)
    then (if is_int (match_length search (drop i subject)) sealeng then found else other)
    else ok buffer

unfoldable pub str_replace : Bytes → Bytes → Bytes → Result Bytes
str_replace search replace subject =
    let sealeng = int_length search in
    let strleng = int_length subject in
    if is_int 0 sealeng
    then ok subject
    else replace_loop sealeng (take (pos_part sealeng) search) replace
        (take (pos_part strleng) subject) (pos_part strleng) 0 []
