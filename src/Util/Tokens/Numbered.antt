-- ===== src/Util/Tokens/Numbered.antt =====
-- The tokens of a string that ends in a number.
use mathlib.Core.Path.{subst}
use mathlib.Core.List.{append-nil}
use native.Mathlib.Nat.{zero-add, add-zero}
use vae_thrift.Prelude.{
  ℕ, suc, ◌+◌, ◌-◌, ◌<◌, ◌≡◌, refl, ap, Bool, true, false, not, some, [], ◌∷◌, ◌++◌, arith, length,
  take, All, ◌∙◌, ◌≢◌, take-append, drop-append, take_all, drop_all, length-append, sym,
}
use vae_thrift.Prelude.Bytes.{Bytes}
use vae_thrift.Util.Tokens.{is_digit, goes_on, run_end, token_end, tokens_from, tokenize_string}
use vae_thrift.Util.Tokens.Runs.{Stops, goes_on_one, tokens_from-cons, tokens_from-last}

run_end-append :
    (m : Bool) (p rest : Bytes) (b : ℕ)
    → All (λ c. goes_on 1 m c ≡ true) p
    → run_end 1 m (p ++ rest) b ≡ run_end 1 m rest (b + length p)
unfolding run_end
run_end-append m [] rest b h = rw add-zero
run_end-append m (c ∷ p) rest b h =
    rw (h.0, run_end) (run_end-append m p rest (b + 1) h.1 ∙ ap (run_end 1 m rest) (omega arith))

run_end-Stops : (m : Bool) (rest : Bytes) (b : ℕ) → Stops 1 m rest → run_end 1 m rest b ≡ b
unfolding run_end
run_end-Stops m [] b h = refl
run_end-Stops m (c ∷ rest) b h = rw (h, run_end)

-- A string whose front holds no digit and whose rest is a number has the front and the number as
-- its tokens, with an empty one behind them.
pub record Numbered (p d : Bytes) : Type 0 where
  pub front : All (λ c. is_digit c ≡ false) p
  pub number : All (λ c. is_digit c ≡ true) d
  pub some_digit : d ≢ []

All-goes_on :
    (m : Bool) (t : Bytes) → All (λ c. is_digit c ≡ not m) t → All (λ c. goes_on 1 m c ≡ true) t
All-goes_on m [] h = tt
All-goes_on m (c ∷ t) h = (ground (arith, h.0, goes_on_one m c), All-goes_on m t h.1)

number-Stops : (d : Bytes) → All (λ c. is_digit c ≡ true) d → Stops 1 true d
number-Stops [] h = tt
number-Stops (c ∷ d) h = ground (arith, h.0, goes_on_one true c)

length_pos : (d : Bytes) → d ≢ [] → 0 < length d
length_pos [] h = absurd (h refl)
length_pos (c ∷ d) h = omega arith

token_end-front : (p d : Bytes) → Numbered p d → token_end 1 (p ++ d) 0 true ≡ 0 + length p
unfolding token_end
token_end-front p d n =
    run_end-append true p d 0 (All-goes_on true p n.front)
    ∙ run_end-Stops true d (0 + length p) (number-Stops d n.number)

token_end-number :
    (p d : Bytes) → Numbered p d → token_end 1 (p ++ d) (length p) false ≡ length p + length d
unfolding token_end
token_end-number p d n =
    ap (λ (r : Bytes). run_end 1 false r (length p)) (drop-append p d ∙ sym (append-nil d))
    ∙ run_end-append false d [] (length p) (All-goes_on false d n.number)
    ∙ run_end-Stops false [] (length p + length d) tt

token_end-end : (s : Bytes) → token_end 1 s (length s) true ≡ length s + 0
unfolding token_end
token_end-end s = rw drop_all (run_end-Stops true [] (length s) tt ∙ omega arith)

pub tokenize_string-Numbered :
    (p d : Bytes) → Numbered p d → tokenize_string 1 (p ++ d) ≡ some (p ∷ d ∷ [] ∷ [])
unfolding tokenize_string
tokenize_string-Numbered p d n =
    let f = length (p ++ d) - 1 in
    let len : length (p ++ d) ≡ length p + length d = length-append p d in
    let pos : 0 < length d = length_pos d n.some_digit in
    let third : tokens_from 1 (suc f) (p ++ d) (length p + length d) true ≡ some ([] ∷ []) =
      subst (λ b. tokens_from 1 (suc f) (p ++ d) b true ≡ some ([] ∷ [])) len
        (tokens_from-last 1 f (p ++ d) (length (p ++ d)) 0 true (token_end-end (p ++ d))
          (omega arith)) in
    let second : tokens_from 1 (suc (suc f)) (p ++ d) (length p) false ≡ some (d ∷ [] ∷ []) =
      tokens_from-cons 1 (suc f) (p ++ d) (length p) (length d) false ([] ∷ [])
        (token_end-number p d n) (omega arith) third
      ∙ ap (λ (t : Bytes). some (t ∷ [] ∷ []))
          (ap (take (length d)) (drop-append p d) ∙ take_all d) in
    let first : tokens_from 1 (suc (suc (suc f))) (p ++ d) 0 true ≡ some (p ∷ d ∷ [] ∷ []) =
      tokens_from-cons 1 (suc (suc f)) (p ++ d) 0 (length p) true (d ∷ [] ∷ [])
        (token_end-front p d n) (omega arith) (rw zero-add second)
      ∙ ap (λ (t : Bytes). some (t ∷ d ∷ [] ∷ [])) (take-append p d) in
    subst (λ k. tokens_from 1 k (p ++ d) 0 true ≡ some (p ∷ d ∷ [] ∷ [])) {x = suc (suc (suc f))}
      (omega arith) first
