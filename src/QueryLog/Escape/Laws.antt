-- ===== src/QueryLog/Escape/Laws.antt =====
-- When the escaping ends, and what it makes.
use native.Mathlib.Nat.{add-zero}
use mathlib.Core.List.{append_assoc}
use vae_thrift.Prelude.{
  ℕ, zero, suc, ◌+◌, ◌≤◌, ◌==◌, ◌≡◌, ◌≢◌, refl, sym, ◌∙◌, ap, ◌⊎◌, inl, inr, none, some, [], ◌∷◌,
  ◌++◌, arith, length, take, drop, Bool-cases, All, length-append, length-take, length-drop,
  drop-append_le, ℕ_discrete,
}
use vae_thrift.Prelude.Bytes.{Bytes}
use vae_thrift.QueryLog.Escape.{
  is_prefix, find_from, find, replace, replace_loop, str_replace, value_rep, backslash, quote,
}

shift : (loc k : ℕ) → loc + 1 + k ≡ loc + suc k
shift loc k = omega arith

-- Where a byte stands behind `pre`, the first match of it is there or before.
find_from_there :
    (c loc : ℕ) (pre post : Bytes)
    → (k : ℕ) × (find_from (c ∷ []) loc (pre ++ (c ∷ post)) ≡ some (loc + k)) × (k ≤ length pre)
unfolding find_from is_prefix
find_from_there c loc [] post = (0, ground (arith, add-zero loc), omega arith)
find_from_there c loc (d ∷ pre) post =
    let (k, e, le) = find_from_there c (loc + 1) pre post in
    elim (Bool-cases (c == d)) [
      | inl same ↦ (0, ground (arith, add-zero loc), omega arith)
      | inr other ↦ (suc k, ground (arith, e ∙ ap some (shift loc k)), omega arith)
    ]

find_from_absent : (c loc : ℕ) (s : Bytes) → All (λ d. d ≢ c) s → find_from (c ∷ []) loc s ≡ none
unfolding find_from is_prefix
find_from_absent c loc [] h = refl
find_from_absent c loc (d ∷ s) h = ground (arith, find_from_absent c (loc + 1) s h.1, h.0)

find_there :
    (c loc : ℕ) (pre post : Bytes)
    → loc ≤ length pre
    → (at : ℕ) × (find (c ∷ []) loc (pre ++ (c ∷ post)) ≡ some at) × (at ≤ length pre)
unfolding find
find_there c loc pre post h =
    let (k, e, le) = find_from_there c loc (drop loc pre) post in
    (
      loc + k,
      ground (
        arith,
        length-append pre (c ∷ post),
        ap (find_from (c ∷ []) loc) (drop-append_le loc pre (c ∷ post) h) ∙ e,
      ),
      omega (arith, le, length-drop loc pre),
    )

-- The loop never ends: the replacement ends with the byte looked for, at the place where the loop
-- goes on.
replace_loop_hangs :
    (fuel c r loc : ℕ) (pre post : Bytes)
    → loc ≤ length pre
    → replace_loop fuel (c ∷ []) (r ∷ c ∷ []) loc (pre ++ (c ∷ post)) ≡ none
unfolding replace_loop replace
replace_loop_hangs zero c r loc pre post h = refl
replace_loop_hangs (suc fuel) c r loc pre post h =
    let (at, found, le) = find_there c loc pre post h in
    let s = pre ++ (c ∷ post) in
    rw (found, replace_loop)
      (ap (replace_loop fuel (c ∷ []) (r ∷ c ∷ []) (at + 1))
          (sym (append_assoc (take at s) (r ∷ []) (c ∷ drop (at + 1) s)))
        ∙ replace_loop_hangs fuel c r (at + 1) (take at s ++ (r ∷ [])) (drop (at + 1) s) (
            omega (
              arith,
              length-append (take at s) (r ∷ []),
              length-take at s,
              length-append pre (c ∷ post),
            )))

replace_loop_absent :
    (fuel c : ℕ) (r s : Bytes)
    → All (λ d. d ≢ c) s
    → replace_loop (suc fuel) (c ∷ []) r 0 s ≡ some s
unfolding replace_loop find
replace_loop_absent fuel c r s h = ground (arith, find_from_absent c 0 s h)

split_at :
    (c : ℕ) (s : Bytes)
    → All (λ d. d ≢ c) s ⊎ ((pre : Bytes) × (post : Bytes) × (s ≡ pre ++ (c ∷ post)))
split_at c [] = inl tt
split_at c (d ∷ s) = elim (ℕ_discrete d c) [
  | yes e ↦ inr ([], s, ap (λ (b : ℕ). b ∷ s) e)
  | no ne ↦ elim (split_at c s) [
    | inl h ↦ inl (ne, h)
    | inr (pre, post, e) ↦ inr (d ∷ pre, post, ap (◌∷◌ d) e)
  ]
]

value_rep-backslash :
    (fuel : ℕ) (pre post : Bytes) → value_rep fuel (pre ++ (backslash ∷ post)) ≡ none
unfolding value_rep str_replace
value_rep-backslash fuel pre post =
    ground (arith, replace_loop_hangs fuel backslash backslash 0 pre post (omega arith))

value_rep-quote : (fuel : ℕ) (pre post : Bytes) → value_rep fuel (pre ++ (quote ∷ post)) ≡ none
unfolding value_rep str_replace
value_rep-quote zero pre post = unfold replace_loop in refl
value_rep-quote (suc fuel) pre post = elim (split_at backslash (pre ++ (quote ∷ post))) [
  | inl h ↦ ground (
    arith,
    replace_loop_absent fuel backslash (backslash ∷ backslash ∷ []) (pre ++ (quote ∷ post)) h,
    replace_loop_hangs (suc fuel) quote backslash 0 pre post (omega arith),
  )
  | inr (p, q, e) ↦ rw e (unfold value_rep str_replace in value_rep-backslash (suc fuel) p q)
]

-- The escaping never ends for a string that holds a backslash or a quote: however many rounds it is
-- given, the loop still has a match in front of it.
pub value_rep_hangs :
    (fuel : ℕ) (c : ℕ) (pre post : Bytes)
    → (c ≡ backslash) ⊎ (c ≡ quote)
    → value_rep fuel (pre ++ (c ∷ post)) ≡ none
value_rep_hangs fuel c pre post (inl e) = rw e (value_rep-backslash fuel pre post)
value_rep_hangs fuel c pre post (inr e) = rw e (value_rep-quote fuel pre post)

-- A string with no backslash and no quote is put in quotes as it stands, and one round of each
-- loop of the escaping is enough.
pub value_rep_plain :
    (fuel : ℕ) (s : Bytes)
    → All (λ d. d ≢ backslash) s
    → All (λ d. d ≢ quote) s
    → value_rep (suc fuel) s ≡ some (quote ∷ (s ++ (quote ∷ [])))
unfolding value_rep str_replace
value_rep_plain fuel s hb hq = ground (
  arith,
  replace_loop_absent fuel backslash (backslash ∷ backslash ∷ []) s hb,
  replace_loop_absent fuel quote (backslash ∷ quote ∷ []) s hq,
)
