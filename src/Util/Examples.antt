-- ===== src/Util/Examples.antt =====
-- Tests of the natural order, and its laws at concrete inputs.
use vae_thrift.Prelude.{
  ℕ, ◌+◌, ◌-◌, ◌*◌, ◌==◌, ltb, ◌≡◌, refl, true, false, Option, none, some, [], ◌∷◌, arith,
}
use vae_thrift.Prelude.Int.{pos}
use vae_thrift.Prelude.Bytes.{Bytes, bytes}
use vae_thrift.Prelude.Eq.{Bytes-discrete}
use vae_thrift.Util.Tokens.{is_digit, goes_on, tokenize_string}
use vae_thrift.Util.Tokens.Numbered.{Numbered}
use vae_thrift.Util.Tokens.Whole.{tokenize_string_other}
use vae_thrift.Util.Merge.{is_float, merge_floats}
use vae_thrift.Util.Compare.{Lexical, IsOrdered, compare_token, compare_tokens, str_compare_nat}

-- The natural numbers stand in for `double`.
pub decimal : ℕ → Bytes → Option ℕ
unfolding is_digit
decimal n [] = some n
decimal n (c ∷ s) = elim (is_digit c) [ true ↦ decimal (n * 10 + (c - b'0')) s | false ↦ none ]

abbrev pub whole : Lexical
whole = record { Double = ℕ; lexical_cast = decimal 0; lt = ltb; near = ◌==◌ }

pub whole-IsOrdered : IsOrdered whole
whole-IsOrdered = record {
  near_refl = λ a. ground arith;
  near_comm = λ a b. ground arith;
  lt-not = λ a b h. ground arith;
}

tokens_of_version :
    tokenize_string 1 (bytes "v1.25b")
    ≡ some (bytes "v" ∷ bytes "1" ∷ bytes "." ∷ bytes "25" ∷ bytes "b" ∷ [] ∷ [])
unfolding tokenize_string goes_on is_digit
tokens_of_version = refl

-- An `isdigit` that returns another value makes one token of the whole string.
tokens_of_glibc : tokenize_string 2048 (bytes "v1.25b") ≡ some (bytes "v1.25b" ∷ [] ∷ [])
unfolding tokenize_string goes_on is_digit
tokens_of_glibc = refl

version_merged :
    merge_floats (bytes "v" ∷ bytes "1" ∷ bytes "." ∷ bytes "25" ∷ bytes "b" ∷ [] ∷ [])
    ≡ bytes "v" ∷ bytes "1.25" ∷ bytes "b" ∷ [] ∷ []
unfolding merge_floats is_float Bytes-discrete
version_merged = refl

two_before_ten : str_compare_nat whole 1 (bytes "img2") (bytes "img10") ≡ some (pos 1)
unfolding str_compare_nat tokenize_string goes_on is_digit merge_floats is_float Bytes-discrete
    compare_tokens compare_token decimal
two_before_ten = refl

tokenize_string_other_example :
    tokenize_string 2048 (bytes "v1.25b") ≡ some (bytes "v1.25b" ∷ [] ∷ [])
tokenize_string_other_example = tokenize_string_other 2048 (omega arith) b'v' (bytes "1.25b")

img2 : Numbered (bytes "img") (bytes "2")
unfolding is_digit
img2 = record { front = (refl, (refl, (refl, tt))); number = (refl, tt); some_digit = λ e. cc }

img10 : Numbered (bytes "img") (bytes "10")
unfolding is_digit
img10 = record {
  front = (refl, (refl, (refl, tt)));
  number = (refl, (refl, tt));
  some_digit = λ e. cc;
}
