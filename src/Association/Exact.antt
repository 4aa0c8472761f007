-- ===== src/Association/Exact.antt =====
-- The cleaning in `~Site`, node by node: what its two loops make of each node of a heap.
use vae_thrift.Prelude.{
  All-map, ℕ, ◌≡◌, refl, ap, ◌∙◌, ◌⊎◌, inl, inr, ◌==◌, Bool, true, false, ◌||◌, Option, none, some,
  List, [], ◌∷◌, arith, All, ℕ_discrete, Bool-cases, Option-cases,
}
use vae_thrift.Exec.{ok}
use vae_thrift.Association.{XmlNode, Heap, put, Libxml, Wiring, load, clean, clean2, clean_nodes}
use vae_thrift.Association.Pointers.{IsLive}
use vae_thrift.Association.Loosened.{StandsAt}

abbrev pub is_in : List ℕ → ℕ → Bool
is_in [] b = false
is_in (a ∷ more) b = (a == b) || is_in more b

abbrev pub if_there : (XmlNode → XmlNode) → Option XmlNode → Option XmlNode
if_there f none = none
if_there f (some n) = some (f n)

-- A node of the first list loses its children, its attributes and its context.
abbrev pub bare : Bool → XmlNode → XmlNode
bare true n = record n { last = none; children = none; properties = none; private_ = none }
bare false n = n

abbrev pub bare_all : List ℕ → Heap → Heap
bare_all pointers h b = if_there (bare (is_in pointers b)) (h b)

bare-bare : (x y : Bool) (n : XmlNode) → bare x (bare y n) ≡ bare (y || x) n
bare-bare true true n = refl
bare-bare true false n = refl
bare-bare false true n = refl
bare-bare false false n = refl

bare_all-put :
    (a : ℕ) (pointers : List ℕ) (h : Heap) (n : XmlNode) (b : ℕ)
    → h a ≡ some n
    → bare_all pointers (put a (bare true n) h) b ≡ bare_all (a ∷ pointers) h b
bare_all-put a pointers h n b at = elim (Bool-cases (is_in pointers b)) [
  | inl e ↦ ground (arith, at, e)
  | inr e ↦ ground (arith, at, e)
]

-- Whether a pointer is the first child of a node at one of the places.
abbrev pub points_to : Option ℕ → ℕ → Bool
points_to none b = false
points_to (some a) b = a == b

abbrev pub children_of : Option XmlNode → Option ℕ
children_of none = none
children_of (some n) = n.children

abbrev pub is_first : Heap → List ℕ → ℕ → Bool
is_first h [] b = false
is_first h (a ∷ items) b = points_to (children_of (h a)) b || is_first h items b

-- A node of the second list loses its attributes and its context, and ends with its first child.
abbrev pub shorten : Bool → XmlNode → XmlNode
shorten true n = record n { last = n.children; properties = none; private_ = none }
shorten false n = n

-- A first child of such a node loses the node behind it.
abbrev pub unlink : Bool → XmlNode → XmlNode
unlink true n = record n { next = none }
unlink false n = n

abbrev pub cut_all : List ℕ → Heap → Heap
cut_all items h b = if_there (λ n. unlink (is_first h items b) (shorten (is_in items b) n)) (h b)

is_first-congr :
    (h g : Heap)
    → ((b : ℕ) → g b ≡ h b)
    → (b : ℕ) (items : List ℕ) → is_first g items b ≡ is_first h items b
is_first-congr h g same b [] = refl
is_first-congr h g same b (a ∷ items) = rw (same a, is_first-congr h g same b items) refl

module _ (t : Libxml) where
  clean_bares :
      (s : Wiring t) (nodes : List ℕ)
      → All (IsLive s.heap) nodes
      → (g : Heap) × (clean t nodes s ≡ (ok tt, record s { heap = g }))
        × ((b : ℕ) → g b ≡ bare_all nodes s.heap b)
  unfolding clean load
  clean_bares s [] live = (
    s.heap,
    refl,
    λ b. elim (Option-cases (s.heap b)) [
      | inl e ↦ ground (arith, e)
      | inr (n, e) ↦ ground (arith, e)
    ],
  )
  clean_bares s (it ∷ nodes) ((n, at), live) =
      let h₁ = put it (bare true n) s.heap in
      let still : All (IsLive h₁) nodes =
        All-map nodes
          (λ a (m, there). elim (ℕ_discrete it a) [
            | yes e ↦ (bare true n, ground arith)
            | no ne ↦ (m, ground (arith, there))
          ])
          live in
      let (g, run, what) = clean_bares (record s { heap = h₁ }) nodes still in
      (g, rw (load, at) run, λ b. what b ∙ bare_all-put it nodes s.heap n b at)

  -- What one round of the second loop makes of a node.
  abbrev round_of : ℕ → XmlNode → ℕ → XmlNode → XmlNode
  round_of it n b m = unlink (points_to n.children b) (shorten (it == b) m)

  twice :
      (x y u v : Bool) (m : XmlNode)
      → unlink x (shorten y (unlink u (shorten v m))) ≡ unlink (u || x) (shorten (v || y) m)
  twice true true true true m = refl
  twice true true true false m = refl
  twice true true false true m = refl
  twice true true false false m = refl
  twice true false true true m = refl
  twice true false true false m = refl
  twice true false false true m = refl
  twice true false false false m = refl
  twice false true true true m = refl
  twice false true true false m = refl
  twice false true false true m = refl
  twice false true false false m = refl
  twice false false true true m = refl
  twice false false true false m = refl
  twice false false false true m = refl
  twice false false false false m = refl

  round_children :
      (it : ℕ) (n : XmlNode) (b : ℕ) (o : Option XmlNode)
      → children_of (if_there (round_of it n b) o) ≡ children_of o
  round_children it n b none = refl
  round_children it n b (some m) = elim (Bool-cases (points_to n.children b)) [
    | inl e ↦ elim (Bool-cases (it == b)) [ inl f ↦ rw (e, f) refl | inr f ↦ rw (e, f) refl ]
    | inr e ↦ elim (Bool-cases (it == b)) [ inl f ↦ rw (e, f) refl | inr f ↦ rw (e, f) refl ]
  ]

  is_first-round :
      (it : ℕ) (n : XmlNode) (h h₂ : Heap)
      → ((b : ℕ) → h₂ b ≡ if_there (round_of it n b) (h b))
      → (items : List ℕ) (b : ℕ) → is_first h₂ items b ≡ is_first h items b
  is_first-round it n h h₂ what [] b = refl
  is_first-round it n h h₂ what (a ∷ items) b =
      let kids : children_of (h₂ a) ≡ children_of (h a) =
        ap children_of (what a) ∙ round_children it n a (h a) in
      rw (kids, is_first-round it n h h₂ what items b) refl

  cut_all-round :
      (it : ℕ) (items : List ℕ) (n : XmlNode) (h h₂ : Heap)
      → h it ≡ some n
      → ((b : ℕ) → h₂ b ≡ if_there (round_of it n b) (h b))
      → (b : ℕ) → cut_all items h₂ b ≡ cut_all (it ∷ items) h b
  cut_all-round it items n h h₂ at what b = elim (Option-cases (h b)) [
    | inl absent ↦ let gone : h₂ b ≡ none = rw (what b, absent) refl in rw (gone, absent) refl
    | inr (m, there) ↦
        let here : h₂ b ≡ some (round_of it n b m) = rw (what b, there) refl in
        rw (here, there, at, is_first-round it n h h₂ what items b)
          (ap some
            (twice (is_first h items b) (is_in items b) (points_to n.children b) (it == b) m))
  ]

  -- One round of the second loop.
  clean2_round :
      (s : Wiring t) (it : ℕ) (nodes : List ℕ) (n : XmlNode)
      → s.heap it ≡ some n
      → (n.children ≡ none)
        ⊎ ((first : ℕ) × (n.children ≡ some first) × ((c : XmlNode) × (s.heap first ≡ some c)))
      → (h₂ : Heap) × (clean2 t (it ∷ nodes) s ≡ clean2 t nodes (record s { heap = h₂ }))
        × ((b : ℕ) → h₂ b ≡ if_there (round_of it n b) (s.heap b))
  unfolding clean2 load
  clean2_round s it nodes n at (inl none_below) = (
    put it (shorten true n) s.heap,
    ground (arith, at, none_below),
    λ b. elim (Option-cases (s.heap b)) [
      | inl absent ↦ ground (arith, at, none_below, absent)
      | inr (m, there) ↦ ground (arith, at, none_below, there)
    ],
  )
  clean2_round s it nodes n at (inr (first, e, (c, c_at))) = elim (ℕ_discrete first it) [
    | yes itself ↦
        let same : c ≡ n = ground (arith, at, c_at, itself) in
        let h₁ = put first (unlink true c) s.heap in
        (
          put it (shorten true (unlink true n)) h₁,
          ground (arith, at, e, c_at, itself, same),
          λ b. elim (Option-cases (s.heap b)) [
            | inl absent ↦ ground (arith, at, e, itself, absent)
            | inr (m, there) ↦ ground (arith, at, e, itself, same, there)
          ],
        )
    | no other ↦
        let h₁ = put first (unlink true c) s.heap in
        (
          put it (shorten true n) h₁,
          ground (arith, at, e, c_at, other),
          λ b. elim (Option-cases (s.heap b)) [
            | inl absent ↦ ground (arith, at, e, c_at, other, absent)
            | inr (m, there) ↦ ground (arith, at, e, c_at, other, there)
          ],
        )
  ]

  live-round :
      (it : ℕ) (n : XmlNode) (h h₂ : Heap)
      → ((b : ℕ) → h₂ b ≡ if_there (round_of it n b) (h b))
      → (a : ℕ) (m : XmlNode) → h a ≡ some m
      → h₂ a ≡ some (round_of it n a m)
  live-round it n h h₂ what a m at = rw (what a, at) refl

  StandsAt-round :
      (it : ℕ) (n : XmlNode) (h h₂ : Heap)
      → ((b : ℕ) → h₂ b ≡ if_there (round_of it n b) (h b))
      → (a : ℕ) → StandsAt h a
      → StandsAt h₂ a
  StandsAt-round it n h h₂ what a (m, at, below) =
      let kids : (round_of it n a m).children ≡ m.children = round_children it n a (some m) in
      (
        round_of it n a m,
        live-round it n h h₂ what a m at,
        elim below [
          | inl e ↦ inl (kids ∙ e)
          | inr (first, e, (c, c_at)) ↦
              inr (first, kids ∙ e, (round_of it n first c, live-round it n h h₂ what first c c_at))
        ],
      )

  clean2_cuts :
      (s : Wiring t) (nodes : List ℕ)
      → All (StandsAt s.heap) nodes
      → (g : Heap) × (clean2 t nodes s ≡ (ok tt, record s { heap = g }))
        × ((b : ℕ) → g b ≡ cut_all nodes s.heap b)
  unfolding clean2
  clean2_cuts s [] stand = (
    s.heap,
    refl,
    λ b. elim (Option-cases (s.heap b)) [
      | inl e ↦ ground (arith, e)
      | inr (n, e) ↦ ground (arith, e)
    ],
  )
  clean2_cuts s (it ∷ nodes) ((n, at, below), stand) =
      let (h₂, first_round, what) = clean2_round s it nodes n at below in
      let (g, run, cuts) =
        clean2_cuts (record s { heap = h₂ }) nodes
          (All-map nodes (StandsAt-round it n s.heap h₂ what) stand) in
      (g, first_round ∙ run, λ b. cuts b ∙ cut_all-round it nodes n s.heap h₂ at what b)

  StandsAt-bare :
      (pointers : List ℕ) (h g : Heap)
      → ((b : ℕ) → g b ≡ bare_all pointers h b)
      → (a : ℕ) → StandsAt h a
      → StandsAt g a
  StandsAt-bare pointers h g what a (m, at, below) =
      let there : g a ≡ some (bare (is_in pointers a) m) = rw (what a, at) refl in
      elim (Bool-cases (is_in pointers a)) [
        | inl e ↦ (bare true m, there ∙ ap (λ x. some (bare x m)) e, inl refl)
        | inr e ↦ (
          m,
          there ∙ ap (λ x. some (bare x m)) e,
          elim below [
            | inl f ↦ inl f
            | inr (first, f, (c, c_at)) ↦
                inr (first, f, (bare (is_in pointers first) c, rw (what first, c_at) refl))
          ],
        )
      ]

  cut_all-congr :
      (items : List ℕ) (h g : Heap)
      → ((b : ℕ) → g b ≡ h b)
      → (b : ℕ) → cut_all items g b ≡ cut_all items h b
  cut_all-congr items h g same b =
      let firsts : (l : List ℕ) → is_first g l b ≡ is_first h l b = is_first-congr h g same b in
      rw (same b, firsts items) refl

  -- Where the nodes to clean are there, and the first children of the items, the cleaning runs to its end,
  -- and of every node of the heap it is known what it makes: a node of the first list loses its
  -- children, attributes and context; one of the second list loses its attributes and its context and
  -- ends with its first child; such a first child loses the node behind it; everything else stays.
  pub clean_nodes-cut_all :
      (s : Wiring t)
      → All (IsLive s.heap) s.nodes_to_clean
      → All (StandsAt s.heap) s.nodes_to_clean2
      → (g : Heap) × (clean_nodes t s ≡ (ok tt, record s { heap = g }))
        × ((b : ℕ) → g b ≡ cut_all s.nodes_to_clean2 (bare_all s.nodes_to_clean s.heap) b)
  unfolding clean_nodes
  clean_nodes-cut_all s pointers items =
      let (h, run, bares) = clean_bares s s.nodes_to_clean pointers in
      let (g, run', cuts) =
        clean2_cuts (record s { heap = h }) s.nodes_to_clean2
          (All-map s.nodes_to_clean2 (StandsAt-bare s.nodes_to_clean s.heap h bares) items) in
      (
        g,
        ground (arith, run, run'),
        λ b. cuts b ∙ cut_all-congr s.nodes_to_clean2 (bare_all s.nodes_to_clean s.heap) h bares b,
      )
