-- ===== src/Util/Tokens/Cut.antt =====
-- How `tokenize_string` cuts a string: totality, and what the tokens are.
use mathlib.Core.Bool.{not-not}
use mathlib.Core.List.{flatten}
use native.Mathlib.Nat.{zero-add, suc-add}
use vae_thrift.Prelude.{
  ℕ, zero, suc, ◌+◌, ◌-◌, ◌≤◌, ◌<◌, ◌≡◌, refl, Bool, true, false, not, some, List, [], ◌∷◌, arith,
  length, take, drop, All, ◌≢◌, take-append-drop, take-nil, drop-drop, length-drop, dec_lt,
}
use vae_thrift.Prelude.Bytes.{Bytes}
use vae_thrift.Util.Tokens.{is_digit, goes_on, run_end, token_end, tokens_from, tokenize_string}
use vae_thrift.Util.Tokens.Runs.{
  Stops, Run, run_end-Run, digit_of_goes_on, goes_on-not, tokens_from-cons, tokens_from-last,
}

-- Tokens that alternate between bytes that are no digits, where `m` holds, and digits.
abbrev pub Alternates : Bool → List Bytes → Type 0
Alternates m [] = Unit
Alternates m (t ∷ ts) = All (λ c. is_digit c ≡ not m) t × Alternates (not m) ts

-- The last token is empty, and no other is.
abbrev pub IsFilled : List Bytes → Type 0
IsFilled [] = Unit
IsFilled (t ∷ []) = t ≡ []
IsFilled (t ∷ u ∷ ts) = (t ≢ []) × IsFilled (u ∷ ts)

All-map :
    (m : Bool) (t : Bytes) → All (λ c. goes_on 1 m c ≡ true) t → All (λ c. is_digit c ≡ not m) t
All-map m [] h = tt
All-map m (c ∷ t) h = (digit_of_goes_on m c h.0, All-map m t h.1)

-- A cut of `rest` into tokens, the first one where `m` holds.
record IsCut (m : Bool) (rest : Bytes) (ts : List Bytes) : Type 0 where
  joined : flatten ts ≡ rest
  alternates : Alternates m ts
  filled : IsFilled ts
  some_token : ts ≢ []

IsFilled-cons : (t : Bytes) (ts : List Bytes) → t ≢ [] → ts ≢ [] → IsFilled ts → IsFilled (t ∷ ts)
IsFilled-cons t [] ne more f = absurd (more refl)
IsFilled-cons t (u ∷ ts) ne more f = (ne, f)

take-ne-nil : (k : ℕ) (rest : Bytes) → 0 < k → k ≤ length rest → take k rest ≢ []
take-ne-nil zero rest pos fits h = omega arith
take-ne-nil (suc k) [] pos fits h = omega arith
take-ne-nil (suc k) (c ∷ rest) pos fits h = cc

last-IsCut :
    (m : Bool) (rest : Bytes) (k : ℕ)
    → Run 1 m rest k
    → length rest ≡ 0
    → IsCut m rest (take k rest ∷ [])
unfolding flatten
last-IsCut m [] k r e =
    rw take-nil
      (record { joined = refl; alternates = (tt, tt); filled = refl; some_token = λ h. cc })
last-IsCut m (c ∷ rest) k r e = absurd (omega arith)

cons-IsCut :
    (m : Bool) (rest : Bytes) (k : ℕ) {after : Bytes} {ts : List Bytes}
    → Run 1 m rest k
    → 0 < k
    → drop k rest ≡ after
    → IsCut (not m) after ts
    → IsCut m rest (take k rest ∷ ts)
unfolding flatten
cons-IsCut m rest k {after} {ts} r pos e cut = record {
  joined = rw (cut.joined, ← e) (take-append-drop k rest);
  alternates = (All-map m (take k rest) r.through, cut.alternates);
  filled = IsFilled-cons _ ts (take-ne-nil k rest pos r.fits) cut.some_token cut.filled;
  some_token = λ h. cc;
}

-- A run is not empty where the bytes before it, of the other kind, have stopped.
Run-pos :
    (m : Bool) (rest : Bytes) (k : ℕ)
    → Stops 1 (not m) rest
    → Run 1 m rest k
    → 0 < length rest
    → 0 < k
Run-pos m [] k ready r h = absurd (omega arith)
Run-pos m (c ∷ rest) zero ready r h =
    absurd (ground (arith, goes_on-not (not m) c ready, not-not m, r.stops))
Run-pos m (c ∷ rest) (suc k) ready r h = omega arith

tokens_from-IsCut :
    (fuel : ℕ) (s : Bytes) (b : ℕ) (m : Bool)
    → Stops 1 (not m) (drop b s)
    → length (drop b s) < fuel
    → b ≤ length s
    → (ts : List Bytes) × (tokens_from 1 fuel s b m ≡ some ts) × IsCut m (drop b s) ts
unfolding tokens_from token_end
tokens_from-IsCut zero s b m ready enough inside = absurd (omega arith)
tokens_from-IsCut (suc fuel) s b m ready enough inside =
    let (k, e, r) = run_end-Run 1 m (drop b s) b in
    let len : length (drop b s) ≡ length s - b = length-drop b s in
    elim (dec_lt b (length s)) [
      | yes more ↦
          let pos : 0 < k = Run-pos m (drop b s) k ready r (omega arith) in
          let (ts, found, cut) =
            tokens_from-IsCut fuel s (b + k) (not m) (rw (not-not, ← drop-drop) r.stops)
              (omega (arith, length-drop (b + k) s, r.fits)) (omega (arith, r.fits)) in
          (
            take k (drop b s) ∷ ts,
            tokens_from-cons 1 fuel s b k m ts e more found,
            cons-IsCut m (drop b s) k r pos (drop-drop b k s) cut,
          )
      | no done ↦ (
        take k (drop b s) ∷ [],
        tokens_from-last 1 fuel s b k m e (omega arith),
        last-IsCut m (drop b s) k r (omega arith),
      )
    ]

-- Where `isdigit` returns 1 at a digit, the loop of `tokenize_string` ends for every string. Joined,
-- the tokens are the string; they alternate between runs with no digit and runs of digits, the
-- first with no digit; and of those behind the first, the last is empty and no other is.
pub tokenize_string_total :
    (s : Bytes)
    → (t : Bytes) × (ts : List Bytes) × (tokenize_string 1 s ≡ some (t ∷ ts))
      × (flatten (t ∷ ts) ≡ s)
      × Alternates true (t ∷ ts)
      × IsFilled ts
unfolding tokenize_string flatten
tokenize_string_total [] = (
  [],
  [],
  tokens_from-last 1 1 [] 0 0 true (unfold token_end run_end in refl) (omega arith),
  refl,
  (tt, tt),
  tt,
)
tokenize_string_total (c ∷ s) =
    let (k, e, r) = run_end-Run 1 true (c ∷ s) 0 in
    let (ts, found, cut) =
      tokens_from-IsCut (length s + 2) (c ∷ s) (0 + k) false (rw zero-add r.stops)
        (omega (arith, length-drop (0 + k) (c ∷ s))) (omega (arith, r.fits)) in
    (
      take k (c ∷ s),
      ts,
      rw suc-add (tokens_from-cons 1 (length s + 2) (c ∷ s) 0 k true ts e (omega arith) found),
      rw (cut.joined, zero-add) (take-append-drop k (c ∷ s)),
      (All-map true (take k (c ∷ s)) r.through, cut.alternates),
      cut.filled,
    )
