-- ===== src/Association/Free/Examples.antt =====
-- The end of a site with one wired item.
use vae_thrift.Prelude.{
  ◌⊎◌, inl, inr, ℕ, ◌≡◌, ◌≢◌, ◌≤◌, refl, true, Option, none, some, [], ◌∷◌, arith, All, ℕ_discrete,
}
use vae_thrift.Prelude.Bytes.{bytes}
use vae_thrift.Prelude.Eq.{nat_eq}
use vae_thrift.Prelude.Map.{find}
use vae_thrift.Exec.{ok}
use vae_thrift.Association.{XmlNode, Heap, put, Wiring}
use vae_thrift.Association.Examples.{shelf, element, words, page, item, other_page, kid, wired_site}
use vae_thrift.Association.Free.{destroy}
use vae_thrift.Association.Exact.{bare_all, cut_all}
use vae_thrift.Association.Free.Owners.{owners_of, Keeps, destroy_lem}
use vae_thrift.Association.Free.Laws.{
  Shape, ends, node_at, Holds, contexts_of, size, Distinct, InMap,
}

abbrev root : XmlNode
root = element (some 1) none (some 5) none none none

abbrev front_page : XmlNode
front_page = record page { next = some 5 }

abbrev whole : Wiring shelf
whole = record wired_site { heap = put 0 root (put 1 front_page wired_site.heap) }

abbrev freed_item : XmlNode
freed_item = record item { properties = none; private_ = none }

abbrev pointer : XmlNode
pointer = element none none none (some 5) none none

abbrev cleaned : Heap
cleaned = cut_all (2 ∷ []) (bare_all (100 ∷ []) whole.heap)

abbrev last_kid : Shape
last_kid = node_at 100 pointer ends ends

abbrev next_kid : Shape
next_kid = node_at 7 (kid (some 100)) ends last_kid

abbrev kids : Shape
kids = node_at 6 (kid (some 7)) ends next_kid

abbrev item_text : Shape
item_text = node_at 3 (words (bytes "5") 2) ends ends

abbrev item_alone : Shape
item_alone = node_at 2 freed_item item_text ends

abbrev second_page : Shape
second_page = node_at 5 (record other_page { last = some 100 }) kids ends

abbrev pages : Shape
pages = node_at 1 front_page item_alone second_page

element-Holds :
    (h : Heap) (o : Option ℕ) (a : ℕ) (n : XmlNode) (below after : Shape)
    → o ≡ some a
    → h a ≡ some n
    → n.is_element ≡ true
    → Holds h n.children below
    → Holds h n.next after
    → Holds h o (node_at a n below after)
element-Holds h o a n below after e at is_element inner onward =
    (e, at, (λ q. inner), (λ q. absurd (ground (arith, is_element))), onward)

text-Holds : Holds cleaned (some 3) item_text
text-Holds = (refl, refl, (λ q. refl), (λ q. refl), refl)

kids-Holds : Holds cleaned (some 6) kids
kids-Holds = element-Holds cleaned (some 6) 6 (kid (some 7)) ends next_kid refl refl refl refl (
    element-Holds cleaned (some 7) 7 (kid (some 100)) ends last_kid refl refl refl refl
      (element-Holds cleaned (some 100) 100 pointer ends ends refl refl refl refl refl))

pages-Holds : Holds cleaned (some 1) pages
pages-Holds =
    element-Holds cleaned (some 1) 1 front_page item_alone second_page refl refl refl
      (element-Holds cleaned (some 2) 2 freed_item item_text ends refl refl refl text-Holds refl)
      (element-Holds cleaned (some 5) 5 (record other_page { last = some 100 }) kids ends refl refl
        refl kids-Holds refl)

pages-contexts : contexts_of pages ≡ 11 ∷ 15 ∷ []
unfolding contexts_of
pages-contexts = refl

pages-size : size pages ≤ 7
unfolding size
pages-size = omega arith

pages-Distinct : Distinct (owners_of pages)
unfolding owners_of
pages-Distinct = ((omega arith, tt), (tt, tt))

-- What contexts the cleaning leaves.
kept_context : (a c : ℕ) → Keeps shelf whole a c → ((a ≡ 1) × (c ≡ 11)) ⊎ ((a ≡ 5) × (c ≡ 15))
kept_context a c ((m, at, e), p, q) = ground (arith, at, e, p, q)

sole : (a b c : ℕ) → Keeps shelf whole a c → Keeps shelf whole b c → a ≡ b
sole a b c v w = ground (arith, kept_context a c v, kept_context b c w)

inside : (a c : ℕ) → Keeps shelf whole a c → InMap whole.contexts c
unfolding find ℕ_discrete
inside a c v = elim (kept_context a c v) [
  | inl (_, e) ↦ rw e (100 ∷ [], refl)
  | inr (_, e) ↦ rw e ([], refl)
]

destroy_lem_example :
    (s : Wiring shelf) × (destroy shelf 7 0 whole ≡ (ok tt, s))
    × (s.nodes ≡ [])
    × All (λ c. find c s.contexts ≡ none) (contexts_of pages)
    × ((d : ℕ) → All (λ c. c ≢ d) (contexts_of pages) → find d s.contexts ≡ find d whole.contexts)
destroy_lem_example =
    destroy_lem shelf 7 0 pages root whole ((_, refl), tt) ((_, refl, inr (3, refl, (_, refl))), tt)
      refl pages-size pages-Holds pages-Distinct sole inside
