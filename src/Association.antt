-- ===== src/Association.antt =====
-- `initializeAssociation` of cpp/context.cpp, with its loop in `loadXmlDoc` and the cleaning in
-- `~Site` of cpp/site.cpp: an item that names another node by its id is wired to the children of
-- that node, and a copy of the item's parent is hung below it. The nodes lie on a heap, since
-- they share their children afterwards. What libxml2 does with nodes is the interface `Libxml`.
pub mod Chains
pub mod Forward
pub mod Reverse
pub mod Hung
pub mod Pointers
pub mod Run
pub mod Wired
pub mod Free
pub mod Lost
pub mod Apart
pub mod Loosened
pub mod Exact
mod Examples
use vae_thrift.Prelude.{
  ℕ, ◌≡◌, ◌==◌, if◌then◌else◌, Bool, true, false, Option, none, some, List, [], ◌∷◌, ◌++◌,
}
use vae_thrift.Prelude.Int.{ℤ, pos, ltb_ℤ}
use vae_thrift.Prelude.Bytes.{Bytes, bytes}
use vae_thrift.Prelude.Atoi.{atoi}
use vae_thrift.Prelude.Eq.{int_eq, nat_eq}
use vae_thrift.Prelude.Map.{Map, find, assign, erase}
use vae_thrift.Exec.{
  Result, ok, raise, undefined, Exec, pure, lift, modify, gets, ◌>>=◌, ◌>>◌, internal_error,
}

-- The fields of an `xmlNode` that the code reads or writes. A pointer is `none` where it is NULL.
pub record XmlNode : Type 0 where
  pub is_element : Bool
  pub is_text : Bool
  pub content : Bytes
  pub children : Option ℕ
  pub next : Option ℕ
  pub last : Option ℕ
  pub parent : Option ℕ
  pub properties : Option ℕ
  pub private_ : Option ℕ

-- The nodes by address; there is none at an address that was never given out or was freed.
abbrev pub Heap : Type 0
Heap = ℕ → Option XmlNode

abbrev pub put : ℕ → XmlNode → Heap → Heap
put a n h b = if a == b then some n else h b

-- `xmlFreePropList`, `xmlFreeNodeList`, `xmlCopyNode` with 0, `xmlAddChild`, `xmlUnlinkNode` and
-- `xmlFreeNode`. The attributes lie apart from the nodes.
pub record Libxml : Type 1 where
  pub Attrs : Type 0
  pub free_prop_list : Option ℕ → Attrs → Attrs
  pub free_node_list : Option ℕ → Heap → Heap
  pub copy_node : ℕ → Heap → Option ℕ × Heap
  pub add_child : ℕ → ℕ → Heap → Heap
  pub unlink_node : ℕ → Heap → Heap
  pub free_node : ℕ → Heap → Heap

-- The site: its nodes, the `pointerNodes` of the contexts that are not deleted, `nodes` and the two
-- lists of nodes to clean.
pub record Wiring (t : Libxml) : Type 0 where
  pub heap : Heap
  pub attrs : t.Attrs
  pub contexts : Map ℕ (List ℕ)
  pub nodes : Map ℤ ℕ
  pub nodes_to_clean : List ℕ
  pub nodes_to_clean2 : List ℕ

module _ (t : Libxml) where
  -- A read through a pointer.
  unfoldable pub load : ℕ → Exec (Wiring t) XmlNode
  load a s = elim (s.heap a) [ none ↦ (undefined, s) | some n ↦ (ok n, s) ]

  abbrev pub store : ℕ → XmlNode → Wiring t → Wiring t
  store a n s = record s { heap = put a n s.heap }

  -- A pointer that must not be NULL.
  abbrev pub target_of : Option ℕ → Result ℕ
  target_of none = undefined
  target_of (some a) = ok a

  -- `getSingleData`
  unfoldable pub get_single_data : ℕ → Exec (Wiring t) Bytes
  get_single_data node = do
    n ← load node
    elim n.children [
      | none ↦ pure []
      | some first ↦ do c ← load first; pure (if c.is_text then c.content else [])
    ]

  -- `_query.find(id)`, and its node if it has one.
  abbrev pub named : Bytes → Map ℤ ℕ → Option ℕ
  named content nodes = if ltb_ℤ (pos 0) (atoi content) then find (atoi content) nodes else none

  -- The forward association: the children, the attributes and the context of the other node.
  unfoldable pub forward : ℕ → ℕ → Exec (Wiring t) (Unit {0})
  forward node associated = do
    n ← load node
    modify λ s. record s {
      attrs = t.free_prop_list n.properties s.attrs;
      nodes_to_clean2 = s.nodes_to_clean2 ++ (node ∷ []);
    }
    first ← lift (target_of n.children)
    c ← load first
    modify λ s. record s { heap = t.free_node_list c.next s.heap }
    m ← load associated
    c' ← load first
    modify (store first (record c' { next = m.children }))
    m' ← load associated
    n' ← load node
    modify (
        store node
          (record n' { properties = m'.properties; last = m'.last; private_ = m'.private_ }))

  -- The reverse association: a copy of the parent, below the other node.
  unfoldable pub reverse : ℕ → ℕ → Exec (Wiring t) ℕ
  reverse node associated = do
    n ← load node
    parent ← lift (target_of n.parent)
    q ← load parent
    copied ← λ s. let (copy, h) = t.copy_node parent s.heap in (ok copy, record s { heap = h })
    elim copied [
      | none ↦ lift (raise (internal_error (bytes "xmlCopyNode returned NULL")))
      | some pointer ↦ do
        p ← load pointer
        modify (
            store pointer (record p {
              private_ = q.private_;
              children = q.children;
              last = q.last;
              properties = q.properties;
            }))
        modify λ s. record s {
          nodes_to_clean = s.nodes_to_clean ++ (pointer ∷ []);
          heap = t.add_child associated pointer s.heap;
        }
        pure pointer
    ]

  -- The `pointerNodes` of a context.
  unfoldable pub pointer_nodes : Option ℕ → Exec (Wiring t) (List ℕ)
  pointer_nodes none s = (undefined, s)
  pointer_nodes (some context) s = elim (find context s.contexts) [
    | none ↦ (undefined, s)
    | some pointers ↦ (ok pointers, s)
  ]

  -- `parentContext->pointerNodes.push_back(pointerNode)`
  unfoldable pub push_pointer : Option ℕ → ℕ → Exec (Wiring t) (Unit {0})
  push_pointer none pointer s = (undefined, s)
  push_pointer (some context) pointer s = elim (find context s.contexts) [
    | none ↦ (undefined, s)
    | some pointers ↦
        (ok tt, record s { contexts = assign context (pointers ++ (pointer ∷ [])) s.contexts })
  ]

  -- The loop over the pointer nodes placed before.
  unfoldable pub set_lasts : ℕ → List ℕ → Exec (Wiring t) (Unit {0})
  set_lasts associated [] s = (ok tt, s)
  set_lasts associated (it ∷ pointers) s =
      let rest = set_lasts associated pointers in
      (do m ← load associated; p ← load it; modify (store it (record p { last = m.last })); rest) s

  abbrev pub delete : ℕ → Exec (Wiring t) (Unit {0})
  delete this = modify λ s. record s { contexts = erase this s.contexts }

  -- The node was found.
  unfoldable pub wire : ℕ → ℕ → ℕ → Exec (Wiring t) (Unit {0})
  wire this node associated = do
    forward node associated
    pointer ← reverse node associated
    n ← load node
    parent ← lift (target_of n.parent)
    q ← load parent
    m ← load associated
    push_pointer q.private_ pointer
    pointers ← pointer_nodes m.private_
    set_lasts associated pointers
    delete this

  -- It was not.
  unfoldable pub drop_item : ℕ → ℕ → Exec (Wiring t) (Unit {0})
  drop_item this node = do
    modify λ s. record s { heap = t.unlink_node node s.heap }
    modify λ s. record s { heap = t.free_node node s.heap }
    delete this

  -- `initializeAssociation` of the context `this`, which is that of `node`.
  unfoldable pub initialize_association : ℕ → ℕ → Exec (Wiring t) (Unit {0})
  initialize_association this node = do
    content ← get_single_data node
    associated ← gets (λ s. named content s.nodes)
    elim associated [ none ↦ drop_item this node | some m ↦ wire this node m ]

  -- The loop of `loadXmlDoc` over `associationsToInitialize`.
  unfoldable pub initialize_associations : List (ℕ × ℕ) → Exec (Wiring t) (Unit {0})
  initialize_associations [] s = (ok tt, s)
  initialize_associations ((this, node) ∷ more) s =
      let rest = initialize_associations more in (initialize_association this node >> rest) s

  -- The two loops of `~Site` that take the shared lists off again.
  unfoldable pub clean : List ℕ → Exec (Wiring t) (Unit {0})
  clean [] s = (ok tt, s)
  clean (it ∷ nodes) s =
      let rest = clean nodes in
      (do
        p ← load it
        modify (
            store it
              (record p { last = none; children = none; properties = none; private_ = none }))
        rest)
        s

  unfoldable pub clean2 : List ℕ → Exec (Wiring t) (Unit {0})
  clean2 [] s = (ok tt, s)
  clean2 (it ∷ nodes) s =
      let rest = clean2 nodes in
      (do
        n ← load it
        elim n.children [
          | none ↦ pure tt
          | some first ↦ do c ← load first; modify (store first (record c { next = none }))
        ]
        n' ← load it
        modify (store it (record n' { last = n'.children; properties = none; private_ = none }))
        rest)
        s

  unfoldable pub clean_nodes : Exec (Wiring t) (Unit {0})
  clean_nodes s = (clean s.nodes_to_clean >> (clean2 s.nodes_to_clean2)) s
