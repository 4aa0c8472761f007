-- ===== src/Association/Hung.antt =====
-- What the two associations leave of the nodes.
use vae_thrift.Prelude.{ℕ, ◌≡◌, ◌≢◌, refl, sym, ap, ◌∙◌, none, some, arith, ℕ_discrete}
use vae_thrift.Prelude.Eq.{int_eq, nat_eq}
use vae_thrift.Association.{XmlNode, Heap, Libxml, Wiring}
use vae_thrift.Association.Chains.{KeepsNext}
use vae_thrift.Association.Forward.{Item}
use vae_thrift.Association.Reverse.{
  Documented, Family, before, hung, node_before, parent_before, associated_before,
}
use vae_thrift.Association.Pointers.{IsLive}

module _ (t : Libxml) (d : Documented t) (s : Wiring t) (node associated : ℕ)
    (i : Item t s node associated) (fam : Family t s node associated i) (p : ℕ)
    (fresh : before t d s node associated i fam p ≡ none) where
  abbrev pub now : Heap
  now = hung t d s node associated i fam p

  abbrev pub old : Heap
  old = before t d s node associated i fam

  -- What the reverse association leaves of a node.
  abbrev Alike : ℕ → XmlNode → XmlNode → Type 0
  Alike a n n' =
      (n'.children ≡ n.children)
      × (n'.parent ≡ n.parent)
      × (n'.properties ≡ n.properties)
      × (n'.private_ ≡ n.private_)
      × (a ≢ fam.l → n'.next ≡ n.next)

  stays : (a : ℕ) (n : XmlNode) → old a ≡ some n → (n' : XmlNode) × (now a ≡ some n') × Alike a n n'
  stays a n at = elim (ℕ_discrete associated a) [
    | yes e ↦
        let m_at = associated_before t d s node associated i fam in
        let same : i.m ≡ n = ground (arith, at, m_at) in
        (
          record i.m { last = some p },
          ground arith,
          (
            ap XmlNode.children same,
            ap XmlNode.parent same,
            ap XmlNode.properties same,
            ap XmlNode.private_ same,
            λ _. ap XmlNode.next same,
          ),
        )
    | no other ↦ elim (ℕ_discrete fam.l a) [
      | yes e ↦
          let same : fam.k ≡ n = ground (arith, at, fam.last_at) in
          (
            record fam.k { next = some p },
            ground arith,
            (
              ap XmlNode.children same,
              ap XmlNode.parent same,
              ap XmlNode.properties same,
              ap XmlNode.private_ same,
              λ ne. absurd (ne (sym e)),
            ),
          )
      | no other' ↦ (n, ground (arith, fresh, at), (refl, refl, refl, refl, λ _. refl))
    ]
  ]

  pub node_now :
      (n : XmlNode) × (now node ≡ some n)
      × (n.children ≡ some i.first)
      × (n.parent ≡ some i.parent)
      × (n.properties ≡ i.m.properties)
      × (n.private_ ≡ i.m.private_)
  node_now =
      let (n, at, (kids, up, props, context, _)) =
        stays node _ (node_before t d s node associated i fam) in
      (n, at, kids ∙ i.children_lem, up ∙ i.parent_lem, props, context)

  pub parent_now :
      (n : XmlNode) × (now i.parent ≡ some n)
      × (n.children ≡ i.q.children)
      × (n.properties ≡ i.q.properties)
      × (n.private_ ≡ i.q.private_)
  parent_now =
      let (n, at, (kids, up, props, context, _)) =
        stays i.parent i.q (parent_before t d s node associated i fam) in
      (n, at, kids, props, context)

  -- A node of the feed, after the forward association.
  was :
      (a : ℕ) (n : XmlNode)
      → s.heap a ≡ some n
      → (n' : XmlNode) × (old a ≡ some n') × (a ≢ i.first → n'.next ≡ n.next)
  was a n at = elim (ℕ_discrete node a) [
    | yes e ↦
        let same : i.n ≡ n = ground (arith, at, i.node_at) in
        (
          record i.n { properties = i.m.properties; last = i.m.last; private_ = i.m.private_ },
          ground arith,
          λ _. ap XmlNode.next same,
        )
    | no other ↦ elim (ℕ_discrete i.first a) [
      | yes e ↦ (record i.c { next = i.m.children }, ground arith, λ ne. absurd (ne (sym e)))
      | no other' ↦ (n, ground (arith, at), λ _. refl)
    ]
  ]

  pub IsLive-now : (a : ℕ) → IsLive s.heap a → IsLive now a
  IsLive-now a (n, at) =
      let (n₁, at₁, _) = was a n at in let (n₂, at₂, _) = stays a n₁ at₁ in (n₂, at₂)

  pub next_now : (a : ℕ) → (a ≢ i.first) × (a ≢ fam.l) → KeepsNext s.heap now a
  next_now a (x, y) n at =
      let (n₁, at₁, same₁) = was a n at in
      let (n₂, at₂, (_, _, _, _, same₂)) = stays a n₁ at₁ in (n₂, at₂, same₂ y ∙ same₁ x)
