-- ===== src/Association/Wired.antt =====
-- An item whose other node is found.
use vae_thrift.Prelude.{
  All-map, ℕ, ◌≡◌, ◌≢◌, refl, sym, ap, ◌∙◌, ◌⊎◌, inl, inr, Option, none, some, List, [], ◌∷◌, ◌++◌,
  arith, Option-cases, All,
}
use vae_thrift.Prelude.Bytes.{bytes}
use vae_thrift.Prelude.Eq.{int_eq, nat_eq}
use vae_thrift.Prelude.Map.{Map, find, assign, find-assign, find-erase}
use vae_thrift.Exec.{ok, raise, internal_error}
use vae_thrift.Association.{XmlNode, Heap, Libxml, Wiring, wire, initialize_association}
use vae_thrift.Association.Chains.{Chain, Relast, Relast-some, KeepsNext, Chain-longer}
use vae_thrift.Association.Forward.{Item, forwarded, forward_lem, get_single_data_item}
use vae_thrift.Association.Reverse.{
  Documented, Family, before, pointer_node, copy_failed, copy_made,
}
use vae_thrift.Association.Hung.{now, node_now, parent_now, next_now}
use vae_thrift.Association.Run.{Places, placed_pointers, placed_lem, wired, wire_run, pointer_now}
use vae_thrift.Association.Pointers.{HasLast}

-- The item shows its text and then the other node's children, the last of which is a new node that
-- shows the children of the item's parent; attributes and contexts are those of the nodes shown.
pub record IsWired (t : Libxml) (s s' : Wiring t) (node associated first parent : ℕ)
    (shown : List ℕ) (p : ℕ) : Type 0 where
  pub n : XmlNode
  pub m : XmlNode
  pub c : XmlNode
  pub q : XmlNode
  pub node_at : s'.heap node ≡ some n
  pub associated_at : s'.heap associated ≡ some m
  pub pointer_at : s'.heap p ≡ some c
  pub parent_at : s'.heap parent ≡ some q
  pub item_shows : Chain s'.heap n.children (first ∷ shown)
  pub associated_shows : Chain s'.heap m.children shown
  pub item_same : (n.properties ≡ m.properties) × (n.private_ ≡ m.private_)
  pub pointer_same :
      (c.children ≡ q.children) × (c.properties ≡ q.properties) × (c.private_ ≡ q.private_)
  pub last_lem : m.last ≡ some p
  pub cleaned_later :
      (s'.nodes_to_clean ≡ s.nodes_to_clean ++ (p ∷ []))
      × (s'.nodes_to_clean2 ≡ s.nodes_to_clean2 ++ (node ∷ []))

module _ (t : Libxml) (d : Documented t) (s : Wiring t) (this node associated : ℕ)
    (i : Item t s node associated) (fam : Family t s node associated i)
    (at : Places t s this node associated i) where
  module _ (p : ℕ) (h g : Heap) (fresh : before t d s node associated i fam p ≡ none)
      (same : (b : ℕ) → h b ≡ now t d s node associated i fam p fresh b)
      (relast : (b : ℕ) → Relast (some p) (h b) (g b)) where
    final :
        (a : ℕ) (n : XmlNode)
        → now t d s node associated i fam p fresh a ≡ some n
        → (o : Option ℕ) × (g a ≡ some (record n { last = o }))
    final a n e = Relast-some (some p) (h a) (g a) n (relast a) (same a ∙ e)

    last_now : g associated ≡ some (record i.m { last = some p })
    last_now =
        let e : h associated ≡ some (record i.m { last = some p }) =
          same associated ∙ ground arith in
        elim (relast associated) [
          | inl unchanged ↦ unchanged ∙ e
          | inr (n, n_at, after) ↦
              let m_n : n ≡ record i.m { last = some p } = cc in
              after ∙ ap (λ (k : XmlNode). some (record k { last = some p })) m_n
        ]

    keeps : (a : ℕ) → (a ≢ i.first) × (a ≢ fam.l) → KeepsNext s.heap g a
    keeps a apart n e =
        let (n₁, e₁, next₁) = next_now t d s node associated i fam p fresh a apart n e in
        let (o, e₂) = final a n₁ e₁ in (record n₁ { last = o }, e₂, next₁)

    module _ (siblings : List ℕ) (shows : Chain s.heap i.m.children (siblings ++ (fam.l ∷ [])))
        (apart : All (λ a. (a ≢ i.first) × (a ≢ fam.l)) siblings) where
      associated-Chain : Chain g i.m.children (siblings ++ (fam.l ∷ p ∷ []))
      associated-Chain =
          let l_now : now t d s node associated i fam p fresh fam.l
              ≡ some (record fam.k { next = some p }) =
            let (x, y) = fam.last_apart in ground arith in
          let (o, l_at) = final fam.l (record fam.k { next = some p }) l_now in
          let (o', c_at) = final p _ (pointer_now t d s this node associated i fam at p fresh) in
          Chain-longer s.heap g i.m.children siblings fam.l p
            (record fam.k { next = some p; last = o })
            (record (pointer_node t d s node associated i fam) { last = o' }) shows
            (All-map siblings keeps apart) l_at refl c_at refl

      wired-IsWired :
          IsWired t s
            (wired t d s this node associated i fam at p g)
            node
            associated
            i.first
            i.parent
            (siblings ++ (fam.l ∷ p ∷ []))
            p
      wired-IsWired =
          let (n, n_now, n_kids, _, n_props, n_context) =
            node_now t d s node associated i fam p fresh in
          let (q, q_now, q_kids, q_props, q_context) =
            parent_now t d s node associated i fam p fresh in
          let (o₁, n_at) = final node n n_now in
          let (o₂, q_at) = final i.parent q q_now in
          let m_now : now t d s node associated i fam p fresh associated
              ≡ some (record i.m { last = some p }) =
            ground arith in
          let first_now : now t d s node associated i fam p fresh i.first
              ≡ some (record i.c { next = i.m.children }) =
            let (x, y) = fam.last_apart in let (_, a, _, b, _) = i.apart in ground (arith, fresh) in
          let (o₃, first_at) = final i.first _ first_now in
          let (o₄, c_at) = final p _ (pointer_now t d s this node associated i fam at p fresh) in
          record {
            n = record n { last = o₁ };
            m = record i.m { last = some p };
            c = record (pointer_node t d s node associated i fam) { last = o₄ };
            q = record q { last = o₂ };
            node_at = n_at;
            associated_at = last_now;
            pointer_at = c_at;
            parent_at = q_at;
            item_shows = (n_kids, _, first_at, associated-Chain);
            associated_shows = associated-Chain;
            item_same = (n_props, n_context);
            pointer_same = (sym q_kids, sym q_props, sym q_context);
            last_lem = refl;
            cleaned_later = (refl, refl);
          }

  -- The contexts afterwards: the parent's has the new pointer node, each pointer node of the other
  -- node ends with it, and the item's own context is gone.
  abbrev pub ArePlaced : Wiring t → ℕ → Type 0
  ArePlaced s' p =
      (find at.above s'.contexts ≡ some (at.above_pointers ++ (p ∷ [])))
      × (find this s'.contexts ≡ none)
      × ((pointers : List ℕ) × (find at.below s'.contexts ≡ some pointers)
          × All (HasLast s'.heap (some p)) pointers)

  wired-ArePlaced :
      (p : ℕ) (g : Heap)
      → All (HasLast g (some p)) (placed_pointers t d s this node associated i fam at p)
      → ArePlaced (wired t d s this node associated i fam at p g) p
  wired-ArePlaced p g has =
      let (x, y) = at.this_apart in
      let ps = at.above_pointers ++ (p ∷ []) in
      let all : Map ℕ (List ℕ) = assign at.above ps s.contexts in
      (
        ground (arith, find-erase this at.above all, find-assign at.above at.above ps s.contexts),
        ground (arith, find-erase this this all),
        (
          placed_pointers t d s this node associated i fam at p,
          ground (
            arith,
            find-erase this at.below all,
            placed_lem t d s this node associated i fam at p,
          ),
          has,
        ),
      )

  starts : initialize_association t this node s ≡ wire t this node associated s
  unfolding initialize_association
  starts = ground (arith, get_single_data_item t s node associated i, i.named_lem)

  wire_fails :
      (t.copy_node i.parent (before t d s node associated i fam)).0 ≡ none
      → wire t this node associated s ≡ (
        raise (internal_error (bytes "xmlCopyNode returned NULL")),
        record (forwarded t s node associated i) {
          heap = (t.copy_node i.parent (before t d s node associated i fam)).1;
        },
      )
  unfolding wire
  wire_fails failed = ground (
    arith,
    forward_lem t s node associated i d.nothing_freed,
    copy_failed t d s node associated i fam failed,
  )

  -- An item whose text is the id of another node, which has children and a context, is wired to it:
  -- behind its text it shows the children of that node, it has its attributes and its context, and the
  -- children of that node end with a new node, which shows the children, the attributes and the
  -- context of the item's parent. That new node is to be cleaned and is a pointer node of the parent's
  -- context, the pointer nodes of the other node end where it ends, and the context of the item is
  -- deleted. The only other outcome is the exception where libxml2 makes no copy.
  pub initialize_association_wires :
      (siblings : List ℕ)
      → Chain s.heap i.m.children (siblings ++ (fam.l ∷ []))
      → All (λ a. (a ≢ i.first) × (a ≢ fam.l)) siblings
      → ((s' : Wiring t) × (initialize_association t this node s
            ≡ (raise (internal_error (bytes "xmlCopyNode returned NULL")), s')))
        ⊎ ((s' : Wiring t) × (p : ℕ) × (initialize_association t this node s ≡ (ok tt, s'))
            × (s.heap p ≡ none)
            × IsWired t s s' node associated i.first i.parent (siblings ++ (fam.l ∷ p ∷ [])) p
            × ArePlaced s' p)
  initialize_association_wires siblings shows apart =
      elim (Option-cases (t.copy_node i.parent (before t d s node associated i fam)).0) [
        | inl failed ↦ inl (
          record (forwarded t s node associated i) {
            heap = (t.copy_node i.parent (before t d s node associated i fam)).1;
          },
          starts ∙ wire_fails failed,
        )
        | inr (p, made) ↦
            let (h, run, fresh, same) = copy_made t d s node associated i fam p made in
            let (g, wires, relast, has) =
              wire_run t d s this node associated i fam at p h fresh run same in
            inr (
              wired t d s this node associated i fam at p g,
              p,
              starts ∙ wires,
              ground (arith, fresh),
              wired-IsWired p h g fresh same relast siblings shows apart,
              wired-ArePlaced p g has,
            )
      ]
