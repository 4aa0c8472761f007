-- ===== src/Association/Forward.antt =====
-- The forward association of an item whose other node is found.
use vae_thrift.Prelude.{ℕ, ◌≡◌, ◌≢◌, refl, true, none, some, [], ◌∷◌, ◌++◌, arith}
use vae_thrift.Prelude.Eq.{int_eq, nat_eq}
use vae_thrift.Exec.{ok}
use vae_thrift.Association.{
  XmlNode, Heap, put, Libxml, Wiring, load, get_single_data, named, forward,
}

-- The item: its node, the text in it, which names the other node, and its parent.
pub record Item (t : Libxml) (s : Wiring t) (node associated : ℕ) : Type 0 where
  pub n : XmlNode
  pub c : XmlNode
  pub m : XmlNode
  pub q : XmlNode
  pub first : ℕ
  pub parent : ℕ
  pub node_at : s.heap node ≡ some n
  pub first_at : s.heap first ≡ some c
  pub associated_at : s.heap associated ≡ some m
  pub parent_at : s.heap parent ≡ some q
  pub children_lem : n.children ≡ some first
  pub parent_lem : n.parent ≡ some parent
  pub text_lem : c.is_text ≡ true
  pub alone : c.next ≡ none
  pub named_lem : named t c.content s.nodes ≡ some associated
  pub apart :
      (node ≢ first)
      × (node ≢ associated)
      × (node ≢ parent)
      × (first ≢ associated)
      × (first ≢ parent)

module _ (t : Libxml) (s : Wiring t) (node associated : ℕ) (i : Item t s node associated) where
  -- The state after the forward association.
  abbrev pub forwarded : Wiring t
  forwarded = record s {
    heap =
        put node
          (record i.n { properties = i.m.properties; last = i.m.last; private_ = i.m.private_ })
          (put i.first (record i.c { next = i.m.children }) s.heap);
    attrs = t.free_prop_list i.n.properties s.attrs;
    nodes_to_clean2 = s.nodes_to_clean2 ++ (node ∷ []);
  }

  pub get_single_data_item : get_single_data t node s ≡ (ok i.c.content, s)
  unfolding get_single_data load
  get_single_data_item =
      rw (get_single_data, load, i.node_at, i.children_lem, i.first_at, i.text_lem) refl

  pub forward_lem :
      ((h : Heap) → t.free_node_list none h ≡ h) → forward t node associated s ≡ (ok tt, forwarded)
  unfolding forward load
  forward_lem free =
      let (a, b, c, d, e) = i.apart in
      let free_c = free s.heap in
      ground (arith, i.node_at, i.children_lem, i.first_at, i.associated_at, i.alone)
