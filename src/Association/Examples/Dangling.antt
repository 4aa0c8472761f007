-- ===== src/Association/Examples/Dangling.antt =====
-- An item that names no page, and an item that names it.
use vae_thrift.Prelude.{
  ℕ, ◌≡◌, ◌≢◌, refl, ap, subst, ◌⊎◌, inl, inr, Option, none, some, [], ◌∷◌, arith, ℕ_discrete,
}
use vae_thrift.Prelude.Int.{pos}
use vae_thrift.Prelude.Bytes.{bytes}
use vae_thrift.Prelude.Atoi.{atoi}
use vae_thrift.Prelude.Eq.{int_eq, nat_eq, ℤ-discrete}
use vae_thrift.Prelude.Map.{find}
use vae_thrift.Exec.{ok, undefined}
use vae_thrift.Association.{
  XmlNode, Heap, put, Wiring, named, load, get_single_data, initialize_associations,
}
use vae_thrift.Association.Lost.{
  Below, itself, first_child, next_child, Removes, Names, dropped, initialize_associations_dangle,
}
use vae_thrift.Association.Examples.{shelf, element, words, unhang, without, free_list}

shelf-unlinked :
    (a b : ℕ) (h : Heap) (n m : XmlNode)
    → h a ≡ some n
    → h b ≡ some m
    → (m' : XmlNode) × (unhang a h b ≡ some m')
      × (m'.is_text ≡ m.is_text)
      × (m'.content ≡ m.content)
      × (n.parent ≢ some b → m'.children ≡ m.children)
shelf-unlinked a b h n m at at' = elim (ℕ_discrete a b) [
  | yes e ↦
      let same : n ≡ m = ground (arith, at, at') in
      (
        record n { next = none; parent = none },
        ground (arith, at),
        ap XmlNode.is_text same,
        ap XmlNode.content same,
        λ _. ap XmlNode.children same,
      )
  | no ne ↦ (m, ground (arith, at, at'), refl, refl, λ _. refl)
]

shelf-still_gone : (o : Option ℕ) (h : Heap) (b : ℕ) → h b ≡ none → free_list o h b ≡ none
shelf-still_gone none h b e = e
shelf-still_gone (some a) h b e = ground (arith, e)

shelf-spared : (a b : ℕ) (h : Heap) → ¬ Below h a b → without a h b ≡ h b
shelf-spared a b h out = elim (ℕ_discrete a b) [
  | yes e ↦ absurd (out (subst (Below h a) e itself))
  | no ne ↦ ground arith
]

shelf-Removes : Removes shelf
shelf-Removes = record {
  unlinked = shelf-unlinked;
  freed = λ a h n e. ground arith;
  still_gone = shelf-still_gone;
  spared = shelf-spared;
}

-- Item 2 has the id 8 and the text "0"; the text of item 22 is "8".
abbrev lost_item : XmlNode
lost_item = element (some 3) none (some 3) (some 1) (some 52) (some 12)

abbrev late_item : XmlNode
late_item = element (some 23) none (some 23) (some 21) (some 62) (some 22)

abbrev feed : Heap
feed =
    put 2 lost_item
      (put 3 (words (bytes "0") 2) (put 22 late_item (put 23 (words (bytes "8") 22) (λ a. none))))

abbrev site : Wiring shelf
site = record {
  heap = feed;
  attrs = [];
  contexts = (12, []) ∷ (22, []) ∷ [];
  nodes = (pos 8, 2) ∷ [];
  nodes_to_clean = [];
  nodes_to_clean2 = [];
}

reached : (x : ℕ) → Below (unhang 2 feed) 2 x → (x ≡ 2) ⊎ (x ≡ 3)
reached _ itself = inl refl
reached c (first_child {x = x} n b at e) = elim (reached x b) [
  | inl q ↦ inr (ground (arith, subst (λ (z : ℕ). unhang 2 feed z ≡ some n) q at, e))
  | inr q ↦ absurd (ground (arith, subst (λ (z : ℕ). unhang 2 feed z ≡ some n) q at, e))
]
reached y (next_child {x = x} n b ne at e) = elim (reached x b) [
  | inl q ↦ absurd (ne q)
  | inr q ↦ absurd (ground (arith, subst (λ (z : ℕ). unhang 2 feed z ≡ some n) q at, e))
]

unreached : (x : ℕ) → x ≢ 2 → x ≢ 3 → ¬ Below (unhang 2 feed) 2 x
unreached x ne ne' b = elim (reached x b) [ inl e ↦ ne e | inr e ↦ ne' e ]

zero_text : get_single_data shelf 2 site ≡ (ok (bytes "0"), site)
unfolding get_single_data load
zero_text = refl

no_zero : named shelf (bytes "0") site.nodes ≡ none
unfolding atoi
no_zero = refl

eight : named shelf (bytes "8") site.nodes ≡ some 2
unfolding atoi find ℤ-discrete ℕ_discrete
eight = refl

names : Names shelf site 2 22
names = record {
  n = lost_item;
  o = late_item;
  c = words (bytes "8") 22;
  first = 23;
  content = bytes "0";
  node_at = refl;
  other_at = refl;
  first_at = refl;
  content_lem = zero_text;
  lost = no_zero;
  children_lem = refl;
  text_lem = refl;
  named_lem = eight;
  not_inside = ground arith;
  not_below = (unreached 22 (omega arith) (omega arith), unreached 23 (omega arith) (omega arith));
}

initialize_associations_dangle_example :
    ((dropped shelf shelf-Removes site 12 2 22 names).nodes ≡ site.nodes)
    × ((dropped shelf shelf-Removes site 12 2 22 names).heap 2 ≡ none)
    × (initialize_associations shelf ((12, 2) ∷ []) site
        ≡ (ok tt, dropped shelf shelf-Removes site 12 2 22 names))
    × ((initialize_associations shelf ((12, 2) ∷ (22, 22) ∷ []) site).0 ≡ undefined)
initialize_associations_dangle_example =
    initialize_associations_dangle shelf shelf-Removes site 12 2 22 names 22 []
