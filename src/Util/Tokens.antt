-- ===== src/Util/Tokens.antt =====
-- `token_end` and `tokenize_string`: a string is cut into runs of digits and of other bytes.
mod Runs
pub mod Cut
pub mod Whole
pub mod Numbered
use Prim.Native.Nat.{bit_xor}
use mathlib.Core.Bool.{not-not}
use mathlib.Core.Path.{subst}
use mathlib.Core.List.{flatten, append-nil}
use native.Mathlib.Nat.{add-sub_cancel_left, zero-add, add-zero, suc-add}
use vae_thrift.Prelude.{
  ℕ, zero, suc, ◌+◌, ◌-◌, ◌≤◌, ◌<◌, ◌==◌, ltb, leb, if◌then◌else◌, ◌≡◌, refl, ap, ◌⊎◌, Bool, true,
  false, not, ◌&&◌, Option, none, some, List, [], ◌∷◌, ◌++◌, arith, length, take, drop, All, inl,
  inr, Bool-cases, ◌∙◌, ◌≢◌, take-append-drop, take-nil, take-append, drop-append, take_all,
  drop_all, length-append, sym, drop-drop, length-drop, dec_lt,
}
use vae_thrift.Prelude.Bytes.{Bytes}

unfoldable pub is_digit : ℕ → Bool
is_digit c = leb b'0' c && leb c b'9'

-- `isdigit` of the C library returns 0, or at a digit some value that is not 0. The code uses it as
-- a number: `isdigit(s.at(b)) ^ strmode`. `digit` is that value.
module _ (digit : ℕ) where
  unfoldable pub goes_on : Bool → ℕ → Bool
  goes_on strmode c =
      not (bit_xor (if is_digit c then digit else 0) (if strmode then 1 else 0) == 0)

  -- The loop of `token_end`, over the bytes from `b` on.
  unfoldable pub run_end : Bool → Bytes → ℕ → ℕ
  run_end strmode [] b = b
  run_end strmode (c ∷ rest) b = elim (goes_on strmode c) [
    | true ↦ run_end strmode rest (b + 1)
    | false ↦ b
  ]

  unfoldable pub token_end : Bytes → ℕ → Bool → ℕ
  unfolding run_end
  token_end s b strmode = run_end strmode (drop b s) b

  -- The `do` loop of `tokenize_string`, from position `b` with `mstr` already flipped.
  unfoldable pub tokens_from : ℕ → Bytes → ℕ → Bool → Option (List Bytes)
  tokens_from zero s b mstr = none
  tokens_from (suc fuel) s b mstr =
      let e = token_end s b mstr in
      let tok = take (e - b) (drop b s) in
      elim (ltb b (length s)) [
        | true ↦ elim (tokens_from fuel s e (not mstr)) [ none ↦ none | some ts ↦ some (tok ∷ ts) ]
        | false ↦ some (tok ∷ [])
      ]

  unfoldable pub tokenize_string : Bytes → Option (List Bytes)
  unfolding tokens_from token_end
  tokenize_string s = tokens_from (length s + 2) s 0 true
