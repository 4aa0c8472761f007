-- ===== src/Association/Reverse.antt =====
-- The reverse association: a copy of the item's parent, at the end of the other node's children.
use vae_thrift.Prelude.{ℕ, ◌≡◌, ◌≢◌, refl, sym, ◌∙◌, false, none, some, [], ◌∷◌, ◌++◌, arith}
use vae_thrift.Prelude.Bytes.{bytes}
use vae_thrift.Exec.{ok, raise, internal_error}
use vae_thrift.Association.{XmlNode, Heap, put, Libxml, Wiring, load, reverse}
use vae_thrift.Association.Forward.{Item, forwarded}

-- What libxml2 documents of its calls, for the nodes that are passed here: nothing is freed of an
-- empty list; a copy is a new node without relations, or null; a node without a parent is added
-- behind the last child.
pub record Documented (t : Libxml) : Type 0 where
  pub nothing_freed : (h : Heap) → t.free_node_list none h ≡ h
  pub copied :
      (a p : ℕ) (h : Heap) (n : XmlNode)
      → h a ≡ some n
      → (t.copy_node a h).0 ≡ some p
      → (h p ≡ none)
        × ((b : ℕ) → p ≢ b → (t.copy_node a h).1 b ≡ h b)
        × ((t.copy_node a h).1 p
            ≡ some (record {
              is_element = n.is_element;
              is_text = n.is_text;
              content = n.content;
              children = none;
              next = none;
              last = none;
              parent = none;
              properties = none;
              private_ = none;
            }))
  pub added :
      (a p l first : ℕ) (h : Heap) (m c k : XmlNode)
      → h a ≡ some m
      → h p ≡ some c
      → h l ≡ some k
      → m.children ≡ some first
      → m.last ≡ some l
      → c.is_text ≡ false
      → c.parent ≡ none
      → (a ≢ p) × (a ≢ l) × (l ≢ p)
      → (b : ℕ)
      → t.add_child a p h b
        ≡ put a
            (record m { last = some p })
            (put l (record k { next = some p }) (put p (record c { parent = some a }) h))
            b

-- What the other node has: children, the last of them at `l`.
pub record Family (t : Libxml) (s : Wiring t) (node associated : ℕ) (i : Item t s node associated)
    : Type 0 where
  pub eldest : ℕ
  pub l : ℕ
  pub k : XmlNode
  pub children_lem : i.m.children ≡ some eldest
  pub last_lem : i.m.last ≡ some l
  pub last_at : (forwarded t s node associated i).heap l ≡ some k
  pub element_lem : i.q.is_text ≡ false
  pub last_apart : (associated ≢ l) × (l ≢ i.first)

module _ (t : Libxml) (d : Documented t) (s : Wiring t) (node associated : ℕ)
    (i : Item t s node associated) (fam : Family t s node associated i) where
  abbrev pub before : Heap
  before = (forwarded t s node associated i).heap

  -- The parent, as the copy shows it.
  abbrev pub parent_node : XmlNode
  parent_node = i.q

  abbrev pub pointer_node : XmlNode
  pointer_node = record i.q { next = none; parent = some associated }

  -- The nodes, once the copy `p` stands below the other node.
  abbrev pub hung : ℕ → Heap
  hung p =
      put associated (record i.m { last = some p })
        (put fam.l (record fam.k { next = some p }) (put p pointer_node before))

  pub parent_before : before i.parent ≡ some i.q
  parent_before = let (a, b, c, e, f) = i.apart in ground (arith, i.parent_at)

  pub associated_before : before associated ≡ some i.m
  associated_before = let (a, b, c, e, f) = i.apart in ground (arith, i.associated_at)

  pub node_before :
      before node
      ≡ some (record i.n { properties = i.m.properties; last = i.m.last; private_ = i.m.private_ })
  node_before = ground arith

  pub copy_failed :
      (t.copy_node i.parent before).0 ≡ none
      → reverse t node associated (forwarded t s node associated i) ≡ (
        raise (internal_error (bytes "xmlCopyNode returned NULL")),
        record (forwarded t s node associated i) { heap = (t.copy_node i.parent before).1 },
      )
  unfolding reverse load
  copy_failed e = ground (arith, node_before, parent_before, i.parent_lem)

  pub copy_made :
      (p : ℕ)
      → (t.copy_node i.parent before).0 ≡ some p
      → (h : Heap) × (reverse t node associated (forwarded t s node associated i) ≡ (
        ok p,
        record (forwarded t s node associated i) {
          heap = h;
          nodes_to_clean = s.nodes_to_clean ++ (p ∷ []);
        },
      ))
        × (before p ≡ none)
        × ((b : ℕ) → h b ≡ hung p b)
  unfolding reverse load
  copy_made p e =
      let (fresh, same, made) = d.copied i.parent p before i.q parent_before e in
      let other_parent : p ≢ i.parent = λ q. ground (arith, fresh, parent_before) in
      let other_associated : p ≢ associated = λ q. ground (arith, fresh, associated_before) in
      let other_last : p ≢ fam.l = λ q. ground (arith, fresh, fam.last_at) in
      let loose = record i.q { next = none; parent = none } in
      let h₂ = (t.copy_node i.parent before).1 in
      let h = put p loose h₂ in
      (
        t.add_child associated p h,
        ground (arith, node_before, parent_before, i.parent_lem, e, made),
        fresh,
        λ b.
            let (x, y) = fam.last_apart in
            let associated_now : h associated ≡ some i.m =
              ground (arith, same associated, associated_before) in
            let last_now : h fam.l ≡ some fam.k = ground (arith, same fam.l, fam.last_at) in
            let pointer_now : h p ≡ some loose = ground arith in
            d.added associated p fam.l fam.eldest h i.m loose fam.k associated_now pointer_now
              last_now fam.children_lem fam.last_lem fam.element_lem refl
              ((λ q. other_associated (sym q)), x, λ q. other_last (sym q)) b
            ∙ ground (arith, same b),
      )
