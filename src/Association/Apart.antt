-- ===== src/Association/Apart.antt =====
-- Wiring one item and cleaning it.
use vae_thrift.Prelude.{
  All-map, ℕ, ◌≡◌, ◌≢◌, refl, ap, ◌∙◌, none, some, List, [], ◌∷◌, ◌++◌, arith, All, ℕ_discrete,
}
use vae_thrift.Exec.{ok}
use vae_thrift.Association.{XmlNode, Heap, put, Libxml, Wiring, load, clean, clean2, clean_nodes}
use vae_thrift.Association.Chains.{Chain, KeepsNext, Chain-kept}
use vae_thrift.Association.Wired.{IsWired}
use vae_thrift.Association.Loosened.{BareAt}

module _ (t : Libxml) (s s' : Wiring t) (node associated first parent p : ℕ) (shown : List ℕ)
    (w : IsWired t s s' node associated first parent shown p)
    (apart : (p ≢ node)
      × (p ≢ first)
      × (first ≢ node)
      × (associated ≢ p)
      × (associated ≢ node)
      × (associated ≢ first)) where
  -- The nodes afterwards.
  loosened : XmlNode → Heap
  loosened c =
      put node (record w.n { last = w.n.children; properties = none; private_ = none })
        (put first (record c { next = none })
          (put p (record w.c { last = none; children = none; properties = none; private_ = none })
            s'.heap))

  cleans :
      (c : XmlNode)
      → w.n.children ≡ some first
      → s'.heap first ≡ some c
      → s.nodes_to_clean ≡ []
      → s.nodes_to_clean2 ≡ []
      → clean_nodes t s' ≡ (ok tt, record s' { heap = loosened c })
  unfolding clean_nodes clean clean2 load loosened
  cleans c e at none₁ none₂ =
      let (a, b, d, _, _, _) = apart in
      let (pointers, items) = w.cleaned_later in
      let one : s'.nodes_to_clean ≡ p ∷ [] = pointers ∙ ap (λ (l : List ℕ). l ++ (p ∷ [])) none₁ in
      let one₂ : s'.nodes_to_clean2 ≡ node ∷ [] =
        items ∙ ap (λ (l : List ℕ). l ++ (node ∷ [])) none₂ in
      ground (arith, one, one₂, e, at, w.node_at, w.pointer_at)

  loosened-keeps : (c : XmlNode) (a : ℕ) → a ≢ first → KeepsNext s'.heap (loosened c) a
  unfolding loosened
  loosened-keeps c a ne n at = elim (ℕ_discrete node a) [
    | yes e ↦
        let same : w.n ≡ n = ground (arith, at, w.node_at) in
        (
          record w.n { last = w.n.children; properties = none; private_ = none },
          ground arith,
          ap XmlNode.next same,
        )
    | no other ↦ elim (ℕ_discrete p a) [
      | yes e ↦
          let same : w.c ≡ n = ground (arith, at, w.pointer_at) in
          (
            record w.c { last = none; children = none; properties = none; private_ = none },
            ground arith,
            ap XmlNode.next same,
          )
      | no other' ↦ (n, ground (arith, at), refl)
    ]
  ]

  -- Where one item was wired, the cleaning takes the shared lists off again, and nothing else: the item
  -- has no child but its text, the pointer node has none, and neither has attributes or a context,
  -- while the other node keeps its children and what it had. Every node but the item, its text and
  -- the pointer node is as it was.
  pub clean_nodes_wired :
      s.nodes_to_clean ≡ []
      → s.nodes_to_clean2 ≡ []
      → All (λ a. a ≢ first) shown
      → (g : Heap) × (clean_nodes t s' ≡ (ok tt, record s' { heap = g }))
        × BareAt g p
        × ((n : XmlNode) × (g node ≡ some n)
            × Chain g n.children (first ∷ [])
            × (n.properties ≡ none)
            × (n.private_ ≡ none))
        × (g associated ≡ some w.m)
        × Chain g w.m.children shown
        × ((b : ℕ) → b ≢ node → b ≢ first → b ≢ p → g b ≡ s'.heap b)
  unfolding loosened
  clean_nodes_wired none₁ none₂ others =
      let (a, b, d, x, y, z) = apart in
      let (shows, c, at, _) = w.item_shows in
      let g = loosened c in
      (
        g,
        cleans c shows at none₁ none₂,
        (
          record w.c { last = none; children = none; properties = none; private_ = none },
          ground arith,
          (refl, refl, refl, refl),
        ),
        (
          record w.n { last = w.n.children; properties = none; private_ = none },
          ground arith,
          (shows, record c { next = none }, ground arith, refl),
          refl,
          refl,
        ),
        ground (arith, w.associated_at),
        Chain-kept s'.heap g w.m.children shown w.associated_shows
            (All-map shown (loosened-keeps c) others),
        λ b h i j. ground arith,
      )
