-- ===== src/Util/Replace/Laws.antt =====
-- What `str_replace` gives.
use vae_thrift.Prelude.{
  ℕ, zero, suc, ◌+◌, ◌≤◌, ◌<◌, ◌≡◌, refl, sym, ap, ◌∙◌, inl, inr, ◌==◌, ltb, false, Bool-cases, [],
  ◌∷◌, ◌++◌, length, drop, take, arith, drop-drop, drop_beyond, drop-cons, take_beyond, ◌^◌,
}
use mathlib.Core.Path.{subst}
use mathlib.Core.List.{append_assoc, append-nil}
use vae_thrift.Prelude.Int.{pos}
use vae_thrift.Prelude.Bytes.{Bytes}
use vae_thrift.Exec.{ok}
use vae_thrift.Util.Replace.{match_length, int_length, replace_loop, str_replace}

-- `search` stands at the head of `s`.
abbrev pub IsHead : Bytes → Bytes → Type 0
IsHead search s = (rest : Bytes) × (s ≡ search ++ rest)

-- The copies of `search` in a string, from the left and without overlap, are replaced; every other
-- byte stays.
pub data Replaced (search replace : Bytes) : Bytes → Bytes → Type 0 where
  stop : Replaced search replace [] []
  hit :
      (s r : Bytes)
      → Replaced search replace s r
      → Replaced search replace (search ++ s) (replace ++ r)
  skip :
      (c : ℕ) (s r : Bytes)
      → ¬ IsHead search (c ∷ s)
      → Replaced search replace s r
      → Replaced search replace (c ∷ s) (c ∷ r)

match_length-IsHead :
    (search s : Bytes)
    → match_length search s ≡ length search
    → s ≡ search ++ drop (length search) s
unfolding match_length
match_length-IsHead [] s h = refl
match_length-IsHead (c ∷ search) [] h = absurd (omega arith)
match_length-IsHead (c ∷ search) (d ∷ s) h = ground (arith, match_length-IsHead search s)

match_length_self : (search rest : Bytes) → match_length search (search ++ rest) ≡ length search
unfolding match_length
match_length_self [] rest = refl
match_length_self (c ∷ search) rest = ground (arith, match_length_self search rest)

IsHead-match_length :
    (search s rest : Bytes)
    → s ≡ search ++ rest
    → ¬ ((match_length search s == length search) ≡ false)
IsHead-match_length search s rest e short =
    let full = ap (match_length search) e ∙ match_length_self search rest in ground (arith, full)

module _ (search replace subject : Bytes) where
  replace_loop_lem :
      (fuel i : ℕ) (buffer : Bytes)
      → 0 < length search
      → length subject ≤ fuel + i
      → (r : Bytes) × (replace_loop (pos (length search)) search replace subject fuel i buffer
          ≡ ok (buffer ++ r))
        × Replaced search replace (drop i subject) r
  unfolding replace_loop
  replace_loop_lem zero i buffer h k =
      let over : ltb i (length subject) ≡ false = ground arith in
      rw (over, drop_beyond i subject (omega arith)) ([], ap ok (sym (append-nil buffer)), stop)
  replace_loop_lem (suc fuel) i buffer h k = elim (Bool-cases (ltb i (length subject))) [
    | inr over ↦
        rw (replace_loop, over, drop_beyond i subject (ground arith))
          ([], ap ok (sym (append-nil buffer)), stop)
    | inl inside ↦ elim (Bool-cases (match_length search (drop i subject) == length search)) [
      | inl full ↦
          let (r, e, replaced) =
            replace_loop_lem fuel (i + length search) (buffer ++ replace) h (omega arith) in
          let head = match_length-IsHead search (drop i subject) (ground arith) in
          (
            replace ++ r,
            rw (replace_loop, inside, full, e) (ap ok (append_assoc buffer replace r)),
            rw (head, drop-drop i (length search) subject)
                (hit (drop (i + length search) subject) r replaced),
          )
      | inr short ↦
          let (c, there, next) = drop-cons i subject (ground arith) in
          let (r, e, replaced) =
            replace_loop_lem fuel (i + 1) (buffer ++ take 1 (drop i subject)) h (omega arith) in
          let one : take 1 (drop i subject) ≡ c ∷ [] = ap (take 1) next in
          let missed : ¬ IsHead search (c ∷ drop (suc i) subject) =
            λ (rest, f). IsHead-match_length search (drop i subject) rest (next ∙ f) short in
          let step : i + 1 ≡ suc i = omega arith in
          let tail = subst (λ n. Replaced search replace (drop n subject) r) step replaced in
          (
            c ∷ r,
            rw (replace_loop, inside, short, e)
                (ap ok (
                  append_assoc buffer (take 1 (drop i subject)) r
                  ∙ ap (λ x. buffer ++ (x ++ r)) one)),
            subst (λ x. Replaced search replace x (c ∷ r)) (sym next)
                (skip c (drop (suc i) subject) r missed tail),
          )
    ]
  ]

int_length_small : (s : Bytes) → length s < 2 ^ 31 → int_length s ≡ pos (length s)
unfolding int_length
int_length_small s h = ground arith

-- For a search string that is not empty, and strings of less than 2^31 bytes, whose lengths an `int`
-- holds, the loop ends, and the result is the subject with the copies of the search string, from the
-- left and without overlap, replaced.
pub str_replace-Replaced :
    (search replace subject : Bytes)
    → 0 < length search
    → length search < 2 ^ 31
    → length subject < 2 ^ 31
    → (r : Bytes) × (str_replace search replace subject ≡ ok r) × Replaced search replace subject r
unfolding str_replace
str_replace-Replaced search replace subject h k l =
    let some_bytes : (0 == length search) ≡ false = ground arith in
    let (r, e, replaced) =
      replace_loop_lem search replace subject (length subject) 0 [] h (omega arith) in
    (
      r,
      rw
          (
            str_replace,
            int_length_small search k,
            int_length_small subject l,
            some_bytes,
            take_beyond (length search) search (omega arith),
            take_beyond (length subject) subject (omega arith),
          )
          e,
      replaced,
    )
