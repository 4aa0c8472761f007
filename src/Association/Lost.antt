-- ===== src/Association/Lost.antt =====
-- An item whose other node is not found: its node is freed, but `nodes` still has its id.
use vae_thrift.Prelude.{ℕ, ◌≡◌, ◌≢◌, refl, ◌∙◌, true, Option, none, some, List, [], ◌∷◌, arith}
use vae_thrift.Prelude.Bytes.{Bytes}
use vae_thrift.Prelude.Eq.{int_eq, nat_eq}
use vae_thrift.Prelude.Map.{erase}
use vae_thrift.Exec.{ok, undefined}
use vae_thrift.Association.{
  XmlNode, Heap, Libxml, Wiring, load, get_single_data, named, forward, drop_item, wire,
  initialize_association, initialize_associations,
}

-- The nodes below one, itself included.
pub data Below (h : Heap) (a : ℕ) : ℕ → Type 0 where
  itself : Below h a a
  first_child :
      {x c : ℕ} (n : XmlNode) → Below h a x → h x ≡ some n → n.children ≡ some c → Below h a c
  next_child :
      {x y : ℕ} (n : XmlNode) → Below h a x → x ≢ a → h x ≡ some n → n.next ≡ some y → Below h a y

-- What libxml2 documents of the calls that take a node away: unlinking changes relations only, and
-- children only of the parent; freeing concerns the node and what lies below it, and brings no node back.
pub record Removes (t : Libxml) : Type 0 where
  pub unlinked :
      (a b : ℕ) (h : Heap) (n m : XmlNode)
      → h a ≡ some n
      → h b ≡ some m
      → (m' : XmlNode) × (t.unlink_node a h b ≡ some m')
        × (m'.is_text ≡ m.is_text)
        × (m'.content ≡ m.content)
        × (n.parent ≢ some b → m'.children ≡ m.children)
  pub freed : (a : ℕ) (h : Heap) (n : XmlNode) → h a ≡ some n → t.free_node a h a ≡ none
  pub still_gone : (o : Option ℕ) (h : Heap) (b : ℕ) → h b ≡ none → t.free_node_list o h b ≡ none
  pub spared : (a b : ℕ) (h : Heap) → ¬ Below h a b → t.free_node a h b ≡ h b

-- An item that names no node, and a later one that names the first item.
pub record Names (t : Libxml) (s : Wiring t) (node other : ℕ) : Type 0 where
  pub n : XmlNode
  pub o : XmlNode
  pub c : XmlNode
  pub first : ℕ
  pub content : Bytes
  pub node_at : s.heap node ≡ some n
  pub other_at : s.heap other ≡ some o
  pub first_at : s.heap first ≡ some c
  pub content_lem : get_single_data t node s ≡ (ok content, s)
  pub lost : named t content s.nodes ≡ none
  pub children_lem : o.children ≡ some first
  pub text_lem : c.is_text ≡ true
  pub named_lem : named t c.content s.nodes ≡ some node
  pub not_inside : (n.parent ≢ some other) × (n.parent ≢ some first)
  pub not_below :
      ¬ Below (t.unlink_node node s.heap) node other
      × ¬ Below (t.unlink_node node s.heap) node first

module _ (t : Libxml) (r : Removes t) (s : Wiring t) (this node other : ℕ)
    (i : Names t s node other) where
  abbrev pub left : Heap
  left = t.free_node node (t.unlink_node node s.heap)

  abbrev pub dropped : Wiring t
  dropped = record s { heap = left; contexts = erase this s.contexts }

  drops : initialize_association t this node s ≡ (ok tt, dropped)
  unfolding initialize_association drop_item
  drops = ground (arith, i.content_lem, i.lost)

  gone : left node ≡ none
  gone =
      let (n', at, _, _, _) = r.unlinked node node s.heap i.n i.n i.node_at i.node_at in
      r.freed node (t.unlink_node node s.heap) n' at

  other_left : (o' : XmlNode) × (left other ≡ some o') × (o'.children ≡ some i.first)
  other_left =
      let (o', at, _, _, same) = r.unlinked node other s.heap i.n i.o i.node_at i.other_at in
      (
        o',
        r.spared node other (t.unlink_node node s.heap) i.not_below.0 ∙ at,
        same i.not_inside.0 ∙ i.children_lem,
      )

  first_left :
      (c' : XmlNode) × (left i.first ≡ some c') × (c'.is_text ≡ true) × (c'.content ≡ i.c.content)
  first_left =
      let (c', at, text, content, _) =
        r.unlinked node i.first s.heap i.n i.c i.node_at i.first_at in
      (
        c',
        r.spared node i.first (t.unlink_node node s.heap) i.not_below.1 ∙ at,
        text ∙ i.text_lem,
        content,
      )

  forward_fails : (forward t other node dropped).0 ≡ undefined
  unfolding forward load
  forward_fails =
      let (o', o_at, kids) = other_left in
      let (c', c_at, _, _) = first_left in
      let now = r.still_gone c'.next left node gone in ground (arith, o_at, kids, c_at, now)

  wire_fails : (this' : ℕ) → (wire t this' other node dropped).0 ≡ undefined
  unfolding wire
  wire_fails this' = ground (arith, forward_fails)

  text_left : get_single_data t other dropped ≡ (ok i.c.content, dropped)
  unfolding get_single_data load
  text_left =
      let (o', o_at, kids) = other_left in
      let (c', c_at, is_text, content) = first_left in
      ground (arith, o_at, kids, c_at, is_text, content)

  again_fails : (this' : ℕ) → (initialize_association t this' other dropped).0 ≡ undefined
  unfolding initialize_association
  again_fails this' = ground (arith, text_left, i.named_lem, wire_fails this')

  -- An item that names no known node is unlinked and freed, and its context deleted, but `nodes` keeps
  -- its address under its id. Where a later item names that id, the loop over the associations reads
  -- the freed node, which is undefined.
  pub initialize_associations_dangle :
      (this' : ℕ) (more : List (ℕ × ℕ))
      → (dropped.nodes ≡ s.nodes)
        × (dropped.heap node ≡ none)
        × (initialize_associations t ((this, node) ∷ []) s ≡ (ok tt, dropped))
        × ((initialize_associations t ((this, node) ∷ (this', other) ∷ more) s).0 ≡ undefined)
  unfolding initialize_associations
  initialize_associations_dangle this' more =
      (refl, gone, ground (arith, drops), ground (arith, drops, again_fails this'))
