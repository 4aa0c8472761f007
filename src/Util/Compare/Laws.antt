-- ===== src/Util/Compare/Laws.antt =====
-- The laws of `str_compare_nat` that a comparison has to have.
use vae_thrift.Prelude.{
  ◌++◌, if◌then◌else◌, zero, suc, ◌≡◌, ◌≢◌, refl, ◌∙◌, inl, inr, ap, Bool, true, false, not, Option,
  none, some, List, [], ◌∷◌, arith, Option-cases,
}
use vae_thrift.Prelude.Int.{ℤ, pos, negsuc}
use vae_thrift.Prelude.Bytes.{Bytes}
use vae_thrift.Util.Tokens.{tokenize_string}
use vae_thrift.Util.Tokens.Cut.{tokenize_string_total}
use vae_thrift.Util.Merge.{is_float, merge_floats, dot_not_IsDigits}
use vae_thrift.Util.Tokens.Numbered.{Numbered, tokenize_string-Numbered}
use vae_thrift.Util.Compare.{
  bytes_lt, Lexical, IsOrdered, sign, by_text, by_number, compare_token, compare_tokens,
  str_compare_nat,
}

abbrev pub negate : ℤ → ℤ
negate (pos zero) = pos zero
negate (pos (suc n)) = negsuc n
negate (negsuc n) = pos (suc n)

abbrev flip : Option ℤ → Option ℤ
flip none = none
flip (some r) = some (negate r)

bytes_lt-not : (a b : Bytes) → a ≢ b → bytes_lt b a ≡ not (bytes_lt a b)
unfolding bytes_lt
bytes_lt-not [] [] h = absurd (h refl)
bytes_lt-not [] (d ∷ b) h = refl
bytes_lt-not (c ∷ a) [] h = refl
bytes_lt-not (c ∷ a) (d ∷ b) h = ground (arith, bytes_lt-not a b)

sign-not : (b : Bool) → sign (not b) ≡ negate (sign b)
sign-not true = refl
sign-not false = refl

module _ (x : Lexical) (order : IsOrdered x) where
  by_text-flip : (a b : Bytes) → by_text x b a ≡ flip (by_text x a b)
  unfolding by_text
  by_text-flip a b = ground (arith, bytes_lt-not a b, sign-not (bytes_lt a b))

  by_number-flip :
      (c d : Option x.Double) (a b : Bytes) → by_number x d c b a ≡ flip (by_number x c d a b)
  unfolding by_number
  by_number-flip (some c) (some d) a b =
      ground (arith, order.near_comm c d, order.lt-not c d, sign-not (x.lt c d))
  by_number-flip (some c) none a b = by_text-flip a b
  by_number-flip none (some d) a b = by_text-flip a b
  by_number-flip none none a b = by_text-flip a b

  compare_token-flip :
      (m : Bool) (a b : Bytes) → compare_token x m b a ≡ flip (compare_token x m a b)
  unfolding compare_token
  compare_token-flip m [] [] = refl
  compare_token-flip m [] (d ∷ b) = ground arith
  compare_token-flip m (c ∷ a) [] = ground arith
  compare_token-flip true (c ∷ a) (d ∷ b) = by_text-flip (c ∷ a) (d ∷ b)
  compare_token-flip false (c ∷ a) (d ∷ b) =
      by_number-flip (x.lexical_cast (c ∷ a)) (x.lexical_cast (d ∷ b)) (c ∷ a) (d ∷ b)

  compare_tokens-flip :
      (m : Bool) (s t : List Bytes) → compare_tokens x m t s ≡ negate (compare_tokens x m s t)
  unfolding compare_tokens
  compare_tokens-flip m [] [] = refl
  compare_tokens-flip m [] (b ∷ t) = refl
  compare_tokens-flip m (a ∷ s) [] = refl
  compare_tokens-flip m (a ∷ s) (b ∷ t) =
      ground (arith, compare_token-flip m a b, compare_tokens-flip (not m) s t)

  str_compare_nat-tokens :
      (s t : Bytes) (u v : List Bytes)
      → tokenize_string 1 s ≡ some u
      → tokenize_string 1 t ≡ some v
      → str_compare_nat x 1 s t ≡ some (compare_tokens x true (merge_floats u) (merge_floats v))
  unfolding str_compare_nat
  str_compare_nat-tokens s t u v e f = ground arith

  -- Where `isdigit` returns 1, comparing two strings always has a result, and comparing them the
  -- other way round has the opposite one, provided that the numbers in them are ordered.
  pub str_compare_nat-flip :
      (s t : Bytes)
      → (r : ℤ) × (str_compare_nat x 1 s t ≡ some r) × (str_compare_nat x 1 t s ≡ some (negate r))
  str_compare_nat-flip s t =
      let (a, u, e, _, _, _) = tokenize_string_total s in
      let (b, v, f, _, _, _) = tokenize_string_total t in
      (
        compare_tokens x true (merge_floats (a ∷ u)) (merge_floats (b ∷ v)),
        str_compare_nat-tokens s t (a ∷ u) (b ∷ v) e f,
        str_compare_nat-tokens t s (b ∷ v) (a ∷ u) f e
            ∙ ap some (compare_tokens-flip true (merge_floats (a ∷ u)) (merge_floats (b ∷ v))),
      )

  by_text_self : (a : Bytes) → by_text x a a ≡ none
  unfolding by_text
  by_text_self a = ground arith

  compare_token_self : (m : Bool) (a : Bytes) → compare_token x m a a ≡ none
  unfolding compare_token
  compare_token_self m [] = refl
  compare_token_self true (c ∷ a) = by_text_self (c ∷ a)
  compare_token_self false (c ∷ a) = elim (Option-cases (x.lexical_cast (c ∷ a))) [
    | inl e ↦ rw e (unfold by_number in by_text_self (c ∷ a))
    | inr (d, e) ↦ rw e (unfold by_number in rw (order.near_refl d))
  ]

  compare_tokens_self : (m : Bool) (s : List Bytes) → compare_tokens x m s s ≡ pos 0
  unfolding compare_tokens
  compare_tokens_self m [] = refl
  compare_tokens_self m (a ∷ s) =
      rw (compare_token_self m a, compare_tokens) (compare_tokens_self (not m) s)

  -- Where `isdigit` returns 1 and the numbers are ordered, a string compares as equal to itself.
  pub str_compare_nat_self : (s : Bytes) → str_compare_nat x 1 s s ≡ some (pos 0)
  str_compare_nat_self s =
      let (a, u, e, _, _, _) = tokenize_string_total s in
      str_compare_nat-tokens s s (a ∷ u) (a ∷ u) e e
      ∙ ap some (compare_tokens_self true (merge_floats (a ∷ u)))

merge_floats-Numbered :
    (p d : Bytes) → Numbered p d → merge_floats (p ∷ d ∷ [] ∷ []) ≡ p ∷ d ∷ [] ∷ []
unfolding merge_floats is_float
merge_floats-Numbered p d n = ground (arith, dot_not_IsDigits d)

module _ (x : Lexical) (order : IsOrdered x) where
  compare_token-number :
      (d e : Bytes) {a b : x.Double}
      → d ≢ []
      → e ≢ []
      → x.lexical_cast d ≡ some a
      → x.lexical_cast e ≡ some b
      → compare_token x false d e ≡ (if x.near a b then none else some (sign (x.lt a b)))
  unfolding compare_token by_number
  compare_token-number [] e dn en da eb = absurd (dn refl)
  compare_token-number (c ∷ d) [] dn en da eb = absurd (en refl)
  compare_token-number (c ∷ d) (f ∷ e) dn en da eb = rw (da, eb)

  compare_tokens-number :
      (p d e : Bytes) {a b : x.Double}
      → d ≢ []
      → e ≢ []
      → x.lexical_cast d ≡ some a
      → x.lexical_cast e ≡ some b
      → compare_tokens x true (p ∷ d ∷ [] ∷ []) (p ∷ e ∷ [] ∷ [])
        ≡ (if x.near a b then pos 0 else sign (x.lt a b))
  unfolding compare_tokens
  compare_tokens-number p d e dn en da eb = ground (
    arith,
    compare_token_self x order true p,
    compare_token_self x order true [],
    compare_token-number d e dn en da eb,
  )

  -- Where `isdigit` returns 1 and the numbers are ordered: strings that differ only in a number at
  -- their end, behind the same front with no digit, come in the order of the numbers that
  -- `lexical_cast` reads there, and count as equal when these are near one another.
  pub str_compare_nat-number :
      (p d e : Bytes) (a b : x.Double)
      → Numbered p d
      → Numbered p e
      → x.lexical_cast d ≡ some a
      → x.lexical_cast e ≡ some b
      → str_compare_nat x 1 (p ++ d) (p ++ e) ≡ some (if x.near a b then pos 0 else sign (x.lt a b))
  str_compare_nat-number p d e a b nd ne da eb =
      str_compare_nat-tokens x order (p ++ d) (p ++ e) (p ∷ d ∷ [] ∷ []) (p ∷ e ∷ [] ∷ [])
        (tokenize_string-Numbered p d nd) (tokenize_string-Numbered p e ne)
      ∙ ap some (
          rw (merge_floats-Numbered p d nd, merge_floats-Numbered p e ne)
            (compare_tokens-number p d e nd.some_digit ne.some_digit da eb))
