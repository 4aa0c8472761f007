-- ===== src/Query/Laws.antt =====
-- Which permalink a query takes.
use vae_thrift.Prelude.{
  ℕ, zero, suc, ◌≡◌, refl, ◌⊎◌, inl, inr, ◌==◌, if◌then◌else◌, Option, none, some, List, [], ◌∷◌,
  length, take, drop, arith, Option-cases, ◌≤◌, ◌<◌,
}
use vae_thrift.Prelude.Bytes.{Bytes, bytes}
use vae_thrift.Prelude.Map.{find}
use vae_thrift.Prelude.Eq.{bytes_eq}
use vae_thrift.Query.{Engine, Stage, returned, go_on, permalink_loop, permalink_stage}

-- The path of the first `k` parts is no permalink of the site.
abbrev pub IsUnknown : Engine → List Bytes → ℕ → Type 0
IsUnknown e parts k = find (e.pcre.join (bytes "/") (take k parts)) e.permalinks ≡ none

-- The first `k` parts are the permalink of `node`, and no more parts, up to `i`, are one.
abbrev pub IsLongest : Engine → List Bytes → ℕ → ℕ → ℕ → Type 0
IsLongest e parts i k node =
    (0 < k)
    × (k ≤ i)
    × (find (e.pcre.join (bytes "/") (take k parts)) e.permalinks ≡ some node)
    × ((j : ℕ) → k < j → j ≤ i → IsUnknown e parts j)

-- What the loop does: the longest prefix decides, and where it is not the whole path, the query
-- goes on below its node with the parts that are left; with no prefix nothing is found.
abbrev pub Resolved : Engine → List Bytes → ℕ → Stage → Type 0
Resolved e parts i outcome =
    ((outcome ≡ returned []) × ((j : ℕ) → 0 < j → j ≤ i → IsUnknown e parts j))
    ⊎ ((k node : ℕ) × IsLongest e parts i k node
        × (outcome ≡ (
            if k == length parts
            then returned (node ∷ [])
            else go_on (e.context_of node) (e.pcre.join (bytes "/") (drop k parts)))))

≤-suc-cases : (j i : ℕ) → j ≤ suc i → (j ≤ i) ⊎ (j ≡ suc i)
≤-suc-cases j i h = ground arith

Resolved-suc :
    (e : Engine) (parts : List Bytes) (i : ℕ) (outcome : Stage)
    → IsUnknown e parts (suc i)
    → Resolved e parts i outcome
    → Resolved e parts (suc i) outcome
Resolved-suc e parts i outcome absent h =
    let higher : (k j : ℕ)
        → ((m : ℕ) → k < m → m ≤ i → IsUnknown e parts m)
        → k < j
        → j ≤ suc i
        → IsUnknown e parts j =
      λ k j below lo hi.
        let last : (j ≤ i) ⊎ (j ≡ suc i) = ≤-suc-cases j i hi in
        elim last [ inl small ↦ below j lo small | inr same ↦ rw same absent ] in
    elim h [
      | inl (e', unknown) ↦ inl (e', λ j lo hi. higher 0 j unknown lo hi)
      | inr (k, node, (lo, hi, found, unknown), e') ↦
          inr (k, node, (lo, omega arith, found, λ j l m. higher k j unknown l m), e')
    ]

permalink_loop-Resolved :
    (e : Engine) (parts : List Bytes) (i : ℕ) → Resolved e parts i (permalink_loop e parts i)
unfolding permalink_loop
permalink_loop-Resolved e parts zero = inl (refl, λ j p q. absurd (omega arith))
permalink_loop-Resolved e parts (suc i) =
    elim (Option-cases (find (e.pcre.join (bytes "/") (take (suc i) parts)) e.permalinks)) [
      | inl absent ↦
          rw (permalink_loop, absent)
            (Resolved-suc e parts i (permalink_loop e parts i) absent
              (permalink_loop-Resolved e parts i))
      | inr (node, found) ↦ inr (
        suc i,
        node,
        (omega arith, omega arith, found, λ j lo hi. absurd (omega arith)),
        rw (permalink_loop, found) refl,
      )
    ]

-- On a query that is a permalink of these parts, the constructor takes the longest prefix of them
-- that the site knows: its node is the answer where that is the whole path, and else the query goes
-- on below it with the parts behind; it finds nothing where no prefix is
-- known.
pub permalink_stage-Resolved :
    (e : Engine) (context : Option ℕ) (q permalink : Bytes)
    → e.pcre.full_match_1 (bytes "permalink/(.*)") q ≡ some permalink
    → let parts = e.pcre.split (bytes "/") permalink in
      Resolved e parts (length parts) (permalink_stage e context q)
unfolding permalink_stage
permalink_stage-Resolved e context q permalink h =
    rw (permalink_stage, h)
      (permalink_loop-Resolved e (e.pcre.split (bytes "/") permalink)
        (length (e.pcre.split (bytes "/") permalink)))
