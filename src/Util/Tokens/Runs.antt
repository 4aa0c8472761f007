-- ===== src/Util/Tokens/Runs.antt =====
-- The runs that `token_end` finds, and one round of the loop of `tokenize_string`.
use Prim.Native.Nat.{bit_xor}
use native.Mathlib.Nat.{add-sub_cancel_left}
use vae_thrift.Prelude.{
  ℕ, suc, ◌+◌, ◌≤◌, ◌<◌, ◌==◌, if◌then◌else◌, ◌≡◌, refl, Bool, true, false, not, some, List, [],
  ◌∷◌, arith, length, take, drop, All, inl, inr, Bool-cases, ◌∙◌,
}
use vae_thrift.Prelude.Bytes.{Bytes}
use vae_thrift.Util.Tokens.{is_digit, goes_on, run_end, token_end, tokens_from}

module _ (digit : ℕ) where
  -- What a run of `k` bytes is: it goes on through its bytes, and does not go on at the next one.
  abbrev pub Stops : Bool → Bytes → Type 0
  Stops m [] = Unit
  Stops m (c ∷ rest) = goes_on digit m c ≡ false

  pub record Run (m : Bool) (rest : Bytes) (k : ℕ) : Type 0 where
    pub fits : k ≤ length rest
    pub through : All (λ c. goes_on digit m c ≡ true) (take k rest)
    pub stops : Stops m (drop k rest)

  pub run_end-Run :
      (m : Bool) (rest : Bytes) (b : ℕ) → (k : ℕ) × (run_end digit m rest b ≡ b + k) × Run m rest k
  unfolding run_end
  run_end-Run m [] b = (0, omega arith, record { fits = omega arith; through = tt; stops = tt })
  run_end-Run m (c ∷ rest) b =
      let (k, e, r) = run_end-Run m rest (b + 1) in
      elim (Bool-cases (goes_on digit m c)) [
        | inl yes_c ↦ (
          suc k,
          rw (yes_c, run_end) (e ∙ omega arith),
          record { fits = omega (arith, r.fits); through = (yes_c, r.through); stops = r.stops },
        )
        | inr no_c ↦ (
          0,
          rw (no_c, run_end) (omega arith),
          record { fits = omega arith; through = tt; stops = no_c },
        )
      ]

-- Where `isdigit` returns 1, a run goes on at the digits or at the other bytes.
xor_one :
    (d m : Bool)
    → not (bit_xor (if d then 1 else 0) (if m then 1 else 0) == 0) ≡ (if m then not d else d)
xor_one true true = refl
xor_one true false = refl
xor_one false true = refl
xor_one false false = refl

pub goes_on_one : (m : Bool) (c : ℕ) → goes_on 1 m c ≡ (if m then not (is_digit c) else is_digit c)
unfolding goes_on
goes_on_one m c = xor_one (is_digit c) m

pub digit_of_goes_on : (m : Bool) (c : ℕ) → goes_on 1 m c ≡ true → is_digit c ≡ not m
digit_of_goes_on m c h = ground (arith, goes_on_one m c)

pub goes_on-not : (m : Bool) (c : ℕ) → goes_on 1 m c ≡ false → goes_on 1 (not m) c ≡ true
goes_on-not m c h = ground (arith, goes_on_one m c, goes_on_one (not m) c)

pub tokens_from-cons :
    (digit fuel : ℕ) (s : Bytes) (b k : ℕ) (m : Bool) (ts : List Bytes)
    → token_end digit s b m ≡ b + k
    → b < length s
    → tokens_from digit fuel s (b + k) (not m) ≡ some ts
    → tokens_from digit (suc fuel) s b m ≡ some (take k (drop b s) ∷ ts)
unfolding tokens_from
tokens_from-cons digit fuel s b k m ts e more h = ground (arith, add-sub_cancel_left b k)

pub tokens_from-last :
    (digit fuel : ℕ) (s : Bytes) (b k : ℕ) (m : Bool)
    → token_end digit s b m ≡ b + k
    → length s ≤ b
    → tokens_from digit (suc fuel) s b m ≡ some (take k (drop b s) ∷ [])
unfolding tokens_from
tokens_from-last digit fuel s b k m e more = ground (arith, add-sub_cancel_left b k)
