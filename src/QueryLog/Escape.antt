-- ===== src/QueryLog/Escape.antt =====
-- `str_replace` of cpp/query_log.h, which escapes the strings that the log shows. The loop is
--
--   while((loc = str.find(search, loc)) != std::string::npos)
--     str.replace(loc++, search.size(), replacement);
--
-- and has fuel here: `none` means that it has not ended in so many rounds. `find` and `replace` of
-- `std::string` are written out. The loop goes on one byte behind the place of a match, and not
-- behind the replacement.
pub mod Laws
use vae_thrift.Prelude.{
  ℕ, zero, suc, ◌+◌, ◌≤◌, ◌<◌, ◌==◌, ltb, if◌then◌else◌, ◌≡◌, ◌≢◌, refl, ◌∙◌, ap, ◌⊎◌, inl, inr,
  Bool, true, false, ◌&&◌, Option, none, some, List, [], ◌∷◌, ◌++◌, arith, length, take, drop,
  Bool-cases, Option-cases,
}
use vae_thrift.Prelude.Bytes.{Bytes}

unfoldable pub is_prefix : Bytes → Bytes → Bool
is_prefix [] s = true
is_prefix (a ∷ p) [] = false
is_prefix (a ∷ p) (b ∷ s) = a == b && is_prefix p s

-- The first match in `s`, counted from the position `loc` at which `s` stands.
unfoldable pub find_from : Bytes → ℕ → Bytes → Option ℕ
find_from search loc [] = if is_prefix search [] then some loc else none
find_from search loc (c ∷ s) =
    if is_prefix search (c ∷ s) then some loc else find_from search (loc + 1) s

-- `str.find(search, loc)`: behind the end there is no match.
unfoldable pub find : Bytes → ℕ → Bytes → Option ℕ
find search loc str = if ltb (length str) loc then none else find_from search loc (drop loc str)

-- `str.replace(loc, n, replacement)`
unfoldable pub replace : ℕ → ℕ → Bytes → Bytes → Bytes
replace loc n replacement str = take loc str ++ (replacement ++ drop (loc + n) str)

unfoldable pub replace_loop : ℕ → Bytes → Bytes → ℕ → Bytes → Option Bytes
replace_loop zero search replacement loc str = none
replace_loop (suc fuel) search replacement loc str = elim (find search loc str) [
  | none ↦ some str
  | some at ↦
      replace_loop fuel search replacement (at + 1) (replace at (length search) replacement str)
]

unfoldable pub str_replace : ℕ → Bytes → Bytes → Bytes → Option Bytes
str_replace fuel search replacement str = replace_loop fuel search replacement 0 str

abbrev pub backslash : ℕ
backslash = 92

abbrev pub quote : ℕ
quote = 34

-- `TypeHelper<std::string>::ValueRep` and the one for `char[2]`: the string in quotes, after a
-- backslash is put before each backslash and each quote.
unfoldable pub value_rep : ℕ → Bytes → Option Bytes
value_rep fuel val = elim (str_replace fuel (backslash ∷ []) (backslash ∷ backslash ∷ []) val) [
  | none ↦ none
  | some escaped ↦ elim (str_replace fuel (quote ∷ []) (backslash ∷ quote ∷ []) escaped) [
    | none ↦ none
    | some quoted ↦ some (quote ∷ (quoted ++ (quote ∷ [])))
  ]
]
