-- ===== src/Util/Merge.antt =====
-- `merge_floats`: a run of digits, a single dot and a run of digits become one token. The window
-- `i`, `i+1`, `i+2` of the loop is the front of the tokens left, and the last loop copies what is
-- too short for a window.
use mathlib.Core.List.{flatten, append_assoc}
use vae_thrift.Prelude.{
  ◌≡◌, ◌≢◌, refl, ◌⊎◌, inl, inr, ap, ite, All, Bool, true, false, Bool-cases, List, [], ◌∷◌, ◌++◌,
  arith,
}
use vae_thrift.Prelude.Bytes.{Bytes, bytes}
use vae_thrift.Prelude.Eq.{Bytes-discrete}
use vae_thrift.Util.Tokens.{is_digit}
use vae_thrift.Util.Tokens.Cut.{Alternates}

-- `c == "." && l != "" && r != ""`
unfoldable pub is_float : Bytes → Bytes → Bytes → Bool
is_float l c r =
    ite (Bytes-discrete c (bytes "."))
      (ite (Bytes-discrete l []) false (ite (Bytes-discrete r []) false true)) false

unfoldable pub merge_floats : List Bytes → List Bytes
merge_floats (l ∷ c ∷ r ∷ rest) = elim (is_float l c r) [
  | true ↦ ((l ++ c) ++ r) ∷ merge_floats rest
  | false ↦ l ∷ merge_floats (c ∷ r ∷ rest)
]
merge_floats tokens = tokens

-- `merge_floats` loses and makes up no byte, and none changes its place.
pub flatten-merge_floats : (ts : List Bytes) → flatten (merge_floats ts) ≡ flatten ts
unfolding merge_floats flatten
flatten-merge_floats [] = refl
flatten-merge_floats (t ∷ []) = refl
flatten-merge_floats (t ∷ u ∷ []) = refl
flatten-merge_floats (l ∷ c ∷ r ∷ rest) = elim (Bool-cases (is_float l c r)) [
  | inl e ↦ rw (e, merge_floats, flatten-merge_floats rest) (simp append_assoc)
  | inr e ↦ rw (e, merge_floats, flatten-merge_floats (c ∷ r ∷ rest))
]

-- An integer of digits, or digits, a dot and digits.
abbrev pub IsDigits : Bytes → Type 0
IsDigits t = All (λ c. is_digit c ≡ true) t

abbrev pub IsNumber : Bytes → Type 0
IsNumber t =
    IsDigits t
    ⊎ ((l : Bytes) × (r : Bytes) × (t ≡ (l ++ bytes ".") ++ r)
        × IsDigits l
        × IsDigits r
        × (l ≢ [])
        × (r ≢ []))

-- Tokens that alternate between texts with no digit, where `m` holds, and numbers.
abbrev pub IsMerged : Bool → List Bytes → Type 0
IsMerged m [] = Unit
IsMerged true (t ∷ ts) = All (λ c. is_digit c ≡ false) t × IsMerged false ts
IsMerged false (t ∷ ts) = IsNumber t × IsMerged true ts

pub dot_not_IsDigits : (c : Bytes) → c ≡ bytes "." → ¬ IsDigits c
unfolding is_digit
dot_not_IsDigits [] e h = cc
dot_not_IsDigits (b ∷ c) e h = ground arith

float_inv : (l c r : Bytes) → is_float l c r ≡ true → (c ≡ bytes ".") × (l ≢ []) × (r ≢ [])
unfolding is_float
float_inv l c r h = ground arith

-- Tokens that alternate between texts with no digit and runs of digits still alternate between
-- texts and numbers after merging; each number is then a run of digits, or two that are not empty
-- with a point between them.
pub merge_floats-IsMerged :
    (m : Bool) (ts : List Bytes) → Alternates m ts → IsMerged m (merge_floats ts)
unfolding merge_floats
merge_floats-IsMerged m [] h = tt
merge_floats-IsMerged true (t ∷ []) h = (h.0, tt)
merge_floats-IsMerged false (t ∷ []) h = (inl h.0, tt)
merge_floats-IsMerged true (t ∷ u ∷ []) h = (h.0, (inl h.1.0, tt))
merge_floats-IsMerged false (t ∷ u ∷ []) h = (inl h.0, (h.1.0, tt))
merge_floats-IsMerged true (l ∷ c ∷ r ∷ rest) h = elim (Bool-cases (is_float l c r)) [
  | inl e ↦ absurd (dot_not_IsDigits c (float_inv l c r e).0 h.1.0)
  | inr e ↦ rw (e, merge_floats) (h.0, merge_floats-IsMerged false (c ∷ r ∷ rest) h.1)
]
merge_floats-IsMerged false (l ∷ c ∷ r ∷ rest) h = elim (Bool-cases (is_float l c r)) [
  | inl e ↦
      let (dot, l_ne, r_ne) = float_inv l c r e in
      rw (e, merge_floats)
        (
          inr (l, r, ap (λ (x : Bytes). (l ++ x) ++ r) dot, h.0, h.1.1.0, l_ne, r_ne),
          merge_floats-IsMerged true rest h.1.1.1,
        )
  | inr e ↦ rw (e, merge_floats) (inl h.0, merge_floats-IsMerged true (c ∷ r ∷ rest) h.1)
]
