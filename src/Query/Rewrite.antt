-- ===== src/Query/Rewrite.antt =====
-- The rewriting of a query into an XPath expression: the loops of the constructor over the parts of
-- the query that stand outside of quotes.
use vae_thrift.Prelude.{
  ℕ, zero, suc, ◌+◌, ◌==◌, leb, if◌then◌else◌, Bool, true, false, not, ◌&&◌, ◌||◌, Option, none,
  some, List, [], ◌∷◌, ◌++◌,
}
use vae_thrift.Prelude.Bytes.{Bytes, bytes}
use vae_thrift.Exec.{Result, ok, raise, diverges, and_then, map_result, query_error}

-- `RE(pattern).Replace(rewrite, &s)`, which replaces the first match if there is one;
-- `RE(pattern).FullMatch` with one and with two groups; `boost::split` and `boost::join`.
pub record Pcre : Type 0 where
  pub replace : Bytes → Bytes → Bytes → Option Bytes
  pub full_match_1 : Bytes → Bytes → Option Bytes
  pub full_match_2 : Bytes → Bytes → Option (Bytes × Bytes)
  pub split : Bytes → Bytes → List Bytes
  pub join : Bytes → List Bytes → Bytes

abbrev lower : ℕ → ℕ
lower c = if leb 65 c && leb c 90 then c + 32 else c

-- `!strcasecmp(s, t)`
unfoldable pub same_caseless : Bytes → Bytes → Bool
same_caseless [] [] = true
same_caseless [] (d ∷ t) = false
same_caseless (c ∷ s) [] = false
same_caseless (c ∷ s) (d ∷ t) = lower c == lower d && same_caseless s t

abbrev starts_with : Bytes → Bytes → Bool
starts_with [] s = true
starts_with (c ∷ p) [] = false
starts_with (c ∷ p) (d ∷ s) = c == d && starts_with p s

-- `strstr(s, needle)`, for a needle that is not empty.
unfoldable pub contains : Bytes → Bytes → Bool
contains needle [] = false
contains needle (c ∷ s) = starts_with needle (c ∷ s) || contains needle s

-- The patterns and their replacements, in the order of the loops.
abbrev pub patterns : List (Bytes × Bytes)
patterns =
    (bytes "/([0-9]+)", bytes "[@id='\\1']")
    ∷ (bytes "\\[([_a-z])([a-z0-9_/]+)([^(a-z0-9_/])", bytes "[\\1\\2/text()\\3")
    ∷ (bytes " (or|and) ([_a-z])([a-z0-9_/]+)([^(a-z0-9_/])", bytes " \\1 \\2\\3/text()\\4")
    ∷ (bytes "([^@])([_a-z])([0-9a-z_/]+) (or|and) ", bytes "\\1\\2\\3/text() \\4 ")
    ∷ (bytes "([^@])([_a-z])([0-9a-z_/]+)\\]", bytes "\\1\\2\\3/text()]")
    ∷ []

module _ (p : Pcre) where
  open p use {replace, split, join}

  -- `while (RE(pattern).Replace(rewrite, &s)) { }`, with fuel.
  unfoldable pub replace_all : ℕ → Bytes → Bytes → Bytes → Result Bytes
  replace_all zero pattern' rewriting s = elim (replace pattern' rewriting s) [
    | none ↦ ok s
    | some s' ↦ diverges
  ]
  replace_all (suc fuel) pattern' rewriting s = elim (replace pattern' rewriting s) [
    | none ↦ ok s
    | some s' ↦ replace_all fuel pattern' rewriting s'
  ]

  unfoldable pub replace_each : ℕ → List (Bytes × Bytes) → Bytes → Result Bytes
  replace_each fuel [] s = ok s
  replace_each fuel ((pattern', rewriting) ∷ more) s =
      and_then (replace_all fuel pattern' rewriting s) (replace_each fuel more)

  abbrev pub double_slash {ℓ} : {A : Type ℓ} → Result A
  double_slash = raise (query_error (bytes "Double-slashes are not supported in Vae queries."))

  -- One round of the loop over the parts.
  unfoldable pub rewrite_part : ℕ → Bytes → Result Bytes
  rewrite_part fuel part =
      and_then (replace_each fuel patterns part)
        λ part'. if contains (bytes "//") part' then double_slash else ok part'

  -- The loop: every second part stands in quotes, and stays.
  unfoldable pub rewrite_parts : ℕ → List Bytes → Result (List Bytes)
  rewrite_parts fuel [] = ok []
  rewrite_parts fuel (part ∷ []) = map_result (λ part'. part' ∷ []) (rewrite_part fuel part)
  rewrite_parts fuel (part ∷ quoted ∷ parts) =
      let rest = rewrite_parts fuel parts in
      and_then (rewrite_part fuel part) λ part'. map_result (λ parts'. part' ∷ quoted ∷ parts') rest

  abbrev mark_first : List Bytes → Bytes → Bytes
  mark_first [] q = q
  mark_first (first ∷ more) q =
      if contains (bytes ".") first
      then q
      else join (bytes "/") ((first ++ bytes "[@id!='']") ∷ more)

  -- The last step, on a path with no predicate.
  unfoldable pub mark_path : Bytes → Bytes
  mark_path q =
      if contains (bytes "/") q && not (contains (bytes "[") q)
      then mark_first (split (bytes "/") q) q
      else q

  unfoldable pub rewrite : ℕ → Bytes → Result Bytes
  rewrite fuel q =
      map_result (λ parts. mark_path (join (bytes "'") parts))
        (rewrite_parts fuel (split (bytes "'") q))
