-- ===== src/Association/Free/Owners.antt =====
-- `~Site` as a whole: after the cleaning each context has one node.
use vae_thrift.Prelude.{
  ℕ, ◌≤◌, ◌≡◌, ◌≢◌, refl, sym, ap, subst, ◌∙◌, inl, inr, Bool, true, false, Option, none, some,
  List, [], ◌∷◌, ◌++◌, arith, Bool-cases, Option-cases, All,
}
use mathlib.Core.Path.{fun_ext}
use vae_thrift.Prelude.Eq.{nat_eq}
use vae_thrift.Prelude.Map.{find}
use vae_thrift.Exec.{ok}
use vae_thrift.Association.{XmlNode, Heap, Libxml, Wiring}
use vae_thrift.Association.Pointers.{IsLive}
use vae_thrift.Association.Loosened.{StandsAt}
use vae_thrift.Association.Exact.{is_in, bare_all, cut_all, clean_nodes-cut_all}
use vae_thrift.Association.Free.{destroy}
use vae_thrift.Association.Free.Laws.{
  Shape, ends, node_at, Holds, own, contexts_of, size, Distinct, InMap, destroy_cleaned,
}

-- The node of each context of a tree, in the order of `contexts_of`.
abbrev owner : Bool → ℕ → Option ℕ → List ℕ
owner true a (some context) = a ∷ []
owner true a none = []
owner false a context = []

unfoldable pub owners_of : Shape → List ℕ
owners_of ends = []
owners_of (node_at a n below after) =
    owner n.is_element a n.private_ ++ (owners_of below ++ owners_of after)

-- The node at `a` has the context `c`.
abbrev pub Has : Heap → ℕ → ℕ → Type 0
Has h a c = (n : XmlNode) × (h a ≡ some n) × (n.private_ ≡ some c)

abbrev Owned : Heap → List ℕ → List ℕ → Type 0
Owned h [] [] = Unit {0}
Owned h [] (c ∷ cs) = ⊥
Owned h (a ∷ places) [] = ⊥
Owned h (a ∷ places) (c ∷ cs) = Has h a c × Owned h places cs

Owned-append :
    (h : Heap) (places cs more cs' : List ℕ)
    → Owned h places cs
    → Owned h more cs'
    → Owned h (places ++ more) (cs ++ cs')
Owned-append h [] [] more cs' v w = w
Owned-append h [] (c ∷ cs) more cs' v w = absurd v
Owned-append h (a ∷ places) [] more cs' v w = absurd v
Owned-append h (a ∷ places) (c ∷ cs) more cs' (has, v) w =
    (has, Owned-append h places cs more cs' v w)

owner-Owned :
    (h : Heap) (a : ℕ) (n : XmlNode) (b : Bool) (context : Option ℕ)
    → h a ≡ some n
    → n.private_ ≡ context
    → Owned h (owner b a context) (own b context)
owner-Owned h a n true (some context) at e = ((n, at, e), tt)
owner-Owned h a n true none at e = tt
owner-Owned h a n false context at e = tt

owners-Owned :
    (h : Heap) (o : Option ℕ) (shape : Shape)
    → Holds h o shape
    → Owned h (owners_of shape) (contexts_of shape)
unfolding owners_of contexts_of
owners-Owned h o ends holds = tt
owners-Owned h o (node_at a n below after) (e, at, inner, alone, onward) =
    let kids : Owned h (owners_of below) (contexts_of below) = elim (Bool-cases n.is_element) [
      | inl f ↦ owners-Owned h n.children below (inner f)
      | inr f ↦ rw (alone f) tt
    ] in
    Owned-append h (owner n.is_element a n.private_) (own n.is_element n.private_) _ _
      (owner-Owned h a n n.is_element n.private_ at refl)
      (Owned-append h (owners_of below) (contexts_of below) _ _ kids
        (owners-Owned h n.next after onward))

-- No two nodes have one context.
abbrev Sole : Heap → Type 0
Sole h = (a b c : ℕ) → Has h a c → Has h b c → a ≡ b

Owned-apart :
    (h : Heap)
    → Sole h
    → (a c : ℕ) → Has h a c
    → (places cs : List ℕ) → Owned h places cs
    → All (λ b. a ≢ b) places
    → All (λ d. c ≢ d) cs
Owned-apart h sole a c has [] [] v apart = tt
Owned-apart h sole a c has [] (d ∷ cs) v apart = absurd v
Owned-apart h sole a c has (b ∷ places) [] v apart = absurd v
Owned-apart h sole a c has (b ∷ places) (d ∷ cs) (has', v) (ne, apart) = (
  (λ e. ne (sole a b c has (subst (Has h b) (sym e) has'))),
  Owned-apart h sole a c has places cs v apart,
)

Owned-Distinct :
    (h : Heap) → Sole h → (places cs : List ℕ) → Owned h places cs → Distinct places → Distinct cs
Owned-Distinct h sole [] [] v distinct = tt
Owned-Distinct h sole [] (c ∷ cs) v distinct = absurd v
Owned-Distinct h sole (a ∷ places) [] v distinct = absurd v
Owned-Distinct h sole (a ∷ places) (c ∷ cs) (has, v) (apart, distinct) =
    (Owned-apart h sole a c has places cs v apart, Owned-Distinct h sole places cs v distinct)

Owned-All :
    (h : Heap) (P : ℕ → Type 0)
    → ((a c : ℕ) → Has h a c → P c)
    → (places cs : List ℕ) → Owned h places cs
    → All P cs
Owned-All h P p [] [] v = tt
Owned-All h P p [] (c ∷ cs) v = absurd v
Owned-All h P p (a ∷ places) [] v = absurd v
Owned-All h P p (a ∷ places) (c ∷ cs) (has, v) = (p a c has, Owned-All h P p places cs v)

-- A node that still has a context after the cleaning had it before, and is in neither list.
cut_all-Has :
    (pointers items : List ℕ) (h : Heap) (a c : ℕ)
    → Has (cut_all items (bare_all pointers h)) a c
    → Has h a c × (is_in pointers a ≡ false) × (is_in items a ≡ false)
cut_all-Has pointers items h a c (n, at, e) = elim (Option-cases (h a)) [
  | inl absent ↦ absurd (ground (arith, at, absent))
  | inr (m, there) ↦ elim (Bool-cases (is_in pointers a)) [
    | inl p ↦ absurd (ground (arith, at, e, there, p))
    | inr p ↦ elim (Bool-cases (is_in items a)) [
      | inl q ↦ absurd (ground (arith, at, e, there, p, q))
      | inr q ↦ ((m, there, ground (arith, at, e, there, p, q)), p, q)
    ]
  ]
]

module _ (t : Libxml) where
  -- A node that the cleaning does not strip has the context.
  abbrev pub Keeps : Wiring t → ℕ → ℕ → Type 0
  Keeps s a c =
      Has s.heap a c × (is_in s.nodes_to_clean a ≡ false) × (is_in s.nodes_to_clean2 a ≡ false)

  -- Where the nodes to clean and the first children of the items are there, the cleaned nodes below the
  -- root are a finite tree, no node with a context stands twice in it, and no context has two nodes but
  -- those that the cleaning strips, as the pointer nodes are: `~Site` comes to its end, and exactly
  -- the contexts of the tree are deleted, each once.
  pub destroy_lem :
      (fuel root_node : ℕ) (shape : Shape) (root : XmlNode) (s : Wiring t)
      → let g = cut_all s.nodes_to_clean2 (bare_all s.nodes_to_clean s.heap) in
        All (IsLive s.heap) s.nodes_to_clean
        → All (StandsAt s.heap) s.nodes_to_clean2
        → g root_node ≡ some root
        → size shape ≤ fuel
        → Holds g root.children shape
        → Distinct (owners_of shape)
        → ((a b c : ℕ) → Keeps s a c → Keeps s b c → a ≡ b)
        → ((a c : ℕ) → Keeps s a c → InMap s.contexts c)
        → (s' : Wiring t) × (destroy t fuel root_node s ≡ (ok tt, s'))
          × (s'.nodes ≡ [])
          × All (λ c. find c s'.contexts ≡ none) (contexts_of shape)
          × ((d : ℕ)
              → All (λ c. c ≢ d) (contexts_of shape)
              → find d s'.contexts ≡ find d s.contexts)
  destroy_lem fuel root_node shape root s pointers items at enough holds distinct sole inside =
      let g = cut_all s.nodes_to_clean2 (bare_all s.nodes_to_clean s.heap) in
      let (g', run, what) = clean_nodes-cut_all t s pointers items in
      let same : g' ≡ g = fun_ext what in
      let keeps = cut_all-Has s.nodes_to_clean s.nodes_to_clean2 s.heap in
      let owned = owners-Owned g root.children shape holds in
      let (s', done, _, nodes, gone, kept) =
        destroy_cleaned t fuel root_node shape root g s
          (run ∙ ap (λ h. (ok tt, record s { heap = h })) same) at enough holds
          (Owned-Distinct g (λ a b c x y. sole a b c (keeps a c x) (keeps b c y)) (owners_of shape)
            (contexts_of shape) owned distinct)
          (Owned-All g (InMap s.contexts) (λ a c x. inside a c (keeps a c x)) (owners_of shape)
            (contexts_of shape) owned) in
      (s', done, nodes, gone, kept)
