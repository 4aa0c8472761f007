-- ===== src/Util/Compare.antt =====
-- `str_compare_nat`: 1 if the first string comes first, -1 if the second does, else 0.
pub mod Laws
use mathlib.Core.Bool.{cond}
use vae_thrift.Prelude.{
  ℕ, zero, suc, ◌+◌, ◌==◌, ltb, if◌then◌else◌, ◌≡◌, ◌≢◌, refl, ◌⊎◌, inl, inr, ap, ite, Bool, true,
  false, not, Bool-cases, Option, none, some, List, [], ◌∷◌, ◌++◌, arith, length,
}
use vae_thrift.Prelude.Int.{ℤ, pos, negsuc}
use vae_thrift.Prelude.Bytes.{Bytes}
use vae_thrift.Prelude.Eq.{Bytes-discrete}
use vae_thrift.Util.Tokens.{tokenize_string}
use vae_thrift.Util.Merge.{merge_floats}

-- `<` of `std::string`
unfoldable pub bytes_lt : Bytes → Bytes → Bool
bytes_lt [] [] = false
bytes_lt [] (b ∷ y) = true
bytes_lt (a ∷ x) [] = false
bytes_lt (a ∷ x) (b ∷ y) = if ltb a b then true else if ltb b a then false else bytes_lt x y

-- `double` and `boost::lexical_cast<double>`, which are not this program's: the cast, or `none` if
-- it throws `bad_lexical_cast`; `<`; and `abs(d1-d2) < EPS`.
pub record Lexical : Type 1 where
  pub Double : Type 0
  pub lexical_cast : Bytes → Option Double
  pub lt : Double → Double → Bool
  pub near : Double → Double → Bool

-- Numbers that are not near one another are in order one way, and nearness is symmetric.
pub record IsOrdered (x : Lexical) : Type 0 where
  pub near_refl : (a : x.Double) → x.near a a ≡ true
  pub near_comm : (a b : x.Double) → x.near a b ≡ x.near b a
  pub lt-not : (a b : x.Double) → x.near a b ≡ false → x.lt b a ≡ not (x.lt a b)

abbrev pub sign : Bool → ℤ
sign true = pos 1
sign false = negsuc 0

module _ (x : Lexical) where
  open x use {Double, lexical_cast, lt, near}

  -- What a pair of tokens decides: `none` to go on with the next pair.
  unfoldable pub by_text : Bytes → Bytes → Option ℤ
  by_text a b = ite (Bytes-discrete a b) none (some (sign (bytes_lt a b)))

  unfoldable pub by_number : Option Double → Option Double → Bytes → Bytes → Option ℤ
  by_number (some c) (some d) a b = if near c d then none else some (sign (lt c d))
  by_number (some c) none a b = by_text a b
  by_number none d a b = by_text a b

  -- The body of the loop, with `mstr` flipped.
  unfoldable pub compare_token : Bool → Bytes → Bytes → Option ℤ
  unfolding by_number by_text
  compare_token mstr [] [] = none
  compare_token mstr [] (c ∷ b) = some (sign (ltb 0 (length (c ∷ b))))
  compare_token mstr (c ∷ a) [] = some (sign (ltb (length (c ∷ a)) 0))
  compare_token mstr (c ∷ a) (d ∷ b) =
      if mstr
      then by_text (c ∷ a) (d ∷ b)
      else by_number (lexical_cast (c ∷ a)) (lexical_cast (d ∷ b)) (c ∷ a) (d ∷ b)

  -- The loop, over the tokens left, and the comparison of the numbers of tokens behind it.
  unfoldable pub compare_tokens : Bool → List Bytes → List Bytes → ℤ
  compare_tokens mstr [] [] = pos 0
  compare_tokens mstr [] (b ∷ t) = pos 1
  compare_tokens mstr (a ∷ s) [] = negsuc 0
  compare_tokens mstr (a ∷ s) (b ∷ t) = elim (compare_token mstr a b) [
    | some r ↦ r
    | none ↦ compare_tokens (not mstr) s t
  ]

  unfoldable pub str_compare_nat : ℕ → Bytes → Bytes → Option ℤ
  str_compare_nat digit s t = elim (tokenize_string digit s) [
    | none ↦ none
    | some u ↦ elim (tokenize_string digit t) [
      | none ↦ none
      | some v ↦ some (compare_tokens true (merge_floats u) (merge_floats v))
    ]
  ]
