-- ===== src/Prelude/Atoi.antt =====
-- `atoi` of the C library: white space, a sign, digits. A number that does not fit into an `int` is
-- undefined there; here it is the number written.
use vae_thrift.Prelude.{ℕ, ◌+◌, ◌*◌, ◌-◌, leb, ◌==◌, if◌then◌else◌, Bool, ◌&&◌, ◌||◌, [], ◌∷◌}
use vae_thrift.Prelude.Int.{ℤ, pos, sub_ℕ}
use vae_thrift.Prelude.Bytes.{Bytes}

abbrev digit : ℕ → Bool
digit c = leb 48 c && leb c 57

unfoldable pub digits_value : ℕ → Bytes → ℕ
digits_value n [] = n
digits_value n (c ∷ s) =
    let more = digits_value (n * 10 + (c - 48)) s in if digit c then more else n

abbrev is_space : ℕ → Bool
is_space c = c == 32 || (leb 9 c && leb c 13)

unfoldable pub atoi : Bytes → ℤ
unfolding digits_value
atoi [] = pos 0
atoi (c ∷ s) =
    let rest = atoi s in
    if is_space c
    then rest
    else if c == 45
    then sub_ℕ 0 (digits_value 0 s)
    else if c == 43
    then pos (digits_value 0 s)
    else pos (digits_value 0 (c ∷ s))
