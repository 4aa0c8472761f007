-- ===== src/Util/Tokens/Whole.antt =====
-- `tokenize_string` over a C library whose `isdigit` returns some other value than 1 at digits.
use Prim.Native.Nat.{bit_xor}
use native.Mathlib.Nat.{zero-add, add-suc, suc-add}
use vae_thrift.Prelude.{
  ℕ, suc, ◌+◌, ◌≡◌, ◌≢◌, ap, ◌∙◌, true, false, some, [], ◌∷◌, arith, length, take_all, drop_all,
  Bool-cases, inl, inr,
}
use vae_thrift.Prelude.Bytes.{Bytes}
use vae_thrift.Util.Tokens.{is_digit, goes_on, run_end, token_end, tokens_from, tokenize_string}
use vae_thrift.Util.Tokens.Runs.{tokens_from-cons, tokens_from-last}

module _ (digit : ℕ) (h : bit_xor digit 1 ≢ 0) where
  goes_on_other : (c : ℕ) → goes_on digit true c ≡ true
  unfolding goes_on
  goes_on_other c = elim (Bool-cases (is_digit c)) [ inl e ↦ rw e (ground arith) | inr e ↦ rw e ]

  run_end_other : (rest : Bytes) (b : ℕ) → run_end digit true rest b ≡ b + length rest
  unfolding run_end
  run_end_other [] b = omega arith
  run_end_other (c ∷ rest) b =
      rw (goes_on_other c, run_end) (run_end_other rest (b + 1) ∙ omega arith)

  second : (fuel : ℕ) (s : Bytes) → tokens_from digit (suc fuel) s (length s) false ≡ some ([] ∷ [])
  second fuel s =
      tokens_from-last digit fuel s (length s) 0 false
        (unfold token_end run_end in rw drop_all (omega arith)) (omega arith)

  -- Where `isdigit` returns a value at digits that differs from 1 in some bit, as 2048 does,
  -- `tokenize_string` cuts nothing: a string that is not empty is its own first token, and an empty
  -- one follows.
  pub tokenize_string_other :
      (c : ℕ) (s : Bytes) → tokenize_string digit (c ∷ s) ≡ some ((c ∷ s) ∷ [] ∷ [])
  unfolding tokenize_string
  tokenize_string_other c s =
      let n = length (c ∷ s) in
      let e : token_end digit (c ∷ s) 0 true ≡ 0 + n =
        unfold token_end in run_end_other (c ∷ s) 0 in
      rw suc-add (
        tokens_from-cons digit (length s + 2) (c ∷ s) 0 n true ([] ∷ []) e (omega arith)
          (rw (zero-add, add-suc) (second (length s + 1) (c ∷ s)))
        ∙ ap (λ (t : Bytes). some (t ∷ [] ∷ [])) (take_all (c ∷ s)))
