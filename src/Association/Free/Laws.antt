-- ===== src/Association/Free/Laws.antt =====
-- The contexts of a tree are deleted, each once.
use vae_thrift.Prelude.{
  ℕ, zero, suc, ◌+◌, ◌≤◌, ◌≡◌, ◌≢◌, refl, sym, ap, subst, ◌∙◌, Bool, true, false, Option, none,
  some, List, [], ◌∷◌, ◌++◌, arith, All,
}
use mathlib.Core.List.{append_assoc}
use vae_thrift.Prelude.Eq.{nat_eq}
use vae_thrift.Prelude.Map.{Map, find, erase, find-erase, find-erase_ne}
use vae_thrift.Exec.{ok, Exec}
use vae_thrift.Association.{XmlNode, Heap, Libxml, Wiring, load, clean_nodes}
use vae_thrift.Association.Free.{delete_private, free_child, free_contexts, destroy}

-- A list of nodes on a heap: the first with its address, what lies below it, and those after it.
pub data Shape : Type 0 where
  ends : Shape
  node_at : ℕ → XmlNode → Shape → Shape → Shape

-- The heap has this shape from the pointer on. What lies below a node that is no element is not asked.
abbrev pub Holds : Heap → Option ℕ → Shape → Type 0
Holds h o ends = o ≡ none
Holds h o (node_at a n below after) =
    (o ≡ some a)
    × (h a ≡ some n)
    × (n.is_element ≡ true → Holds h n.children below)
    × (n.is_element ≡ false → below ≡ ends)
    × Holds h n.next after

abbrev pub own : Bool → Option ℕ → List ℕ
own true (some context) = context ∷ []
own true none = []
own false context = []

-- The contexts of the elements, in the order of the walk.
unfoldable pub contexts_of : Shape → List ℕ
contexts_of ends = []
contexts_of (node_at a n below after) =
    own n.is_element n.private_ ++ (contexts_of below ++ contexts_of after)

unfoldable pub size : Shape → ℕ
size ends = 0
size (node_at a n below after) = 1 + (size below + size after)

unfoldable pub erase_all : List ℕ → Map ℕ (List ℕ) → Map ℕ (List ℕ)
erase_all [] m = m
erase_all (c ∷ cs) m = erase_all cs (erase c m)

-- The contexts are there, and none stands twice in the list.
unfoldable pub Deletable : List ℕ → Map ℕ (List ℕ) → Type 0
Deletable [] m = Unit {0}
Deletable (c ∷ cs) m = ((pointers : List ℕ) × (find c m ≡ some pointers)) × Deletable cs (erase c m)

erase_all-append :
    (xs ys : List ℕ) (m : Map ℕ (List ℕ)) → erase_all (xs ++ ys) m ≡ erase_all ys (erase_all xs m)
unfolding erase_all
erase_all-append [] ys m = refl
erase_all-append (x ∷ xs) ys m = erase_all-append xs ys (erase x m)

Deletable-append :
    (xs ys : List ℕ) (m : Map ℕ (List ℕ))
    → Deletable (xs ++ ys) m
    → Deletable xs m × Deletable ys (erase_all xs m)
unfolding Deletable erase_all
Deletable-append [] ys m d = (tt, d)
Deletable-append (x ∷ xs) ys m (found, d) =
    let (d₁, d₂) = Deletable-append xs ys (erase x m) d in ((found, d₁), d₂)

-- No number stands twice.
abbrev pub Distinct : List ℕ → Type 0
Distinct [] = Unit {0}
Distinct (c ∷ cs) = All (λ d. c ≢ d) cs × Distinct cs

abbrev pub InMap : Map ℕ (List ℕ) → ℕ → Type 0
InMap m c = (pointers : List ℕ) × (find c m ≡ some pointers)

InMap-erase :
    (c : ℕ) (cs : List ℕ) (m : Map ℕ (List ℕ))
    → All (λ d. c ≢ d) cs
    → All (InMap m) cs
    → All (InMap (erase c m)) cs
InMap-erase c [] m apart inside = tt
InMap-erase c (d ∷ cs) m (ne, apart) ((pointers, found), inside) =
    ((pointers, find-erase_ne c d m ne ∙ found), InMap-erase c cs m apart inside)

Distinct-Deletable :
    (cs : List ℕ) (m : Map ℕ (List ℕ)) → Distinct cs → All (InMap m) cs → Deletable cs m
unfolding Deletable
Distinct-Deletable [] m distinct inside = tt
Distinct-Deletable (c ∷ cs) m (apart, distinct) (found, inside) =
    (found, Distinct-Deletable cs (erase c m) distinct (InMap-erase c cs m apart inside))

find-erase_all_other :
    (cs : List ℕ) (m : Map ℕ (List ℕ)) (d : ℕ)
    → All (λ c. c ≢ d) cs
    → find d (erase_all cs m) ≡ find d m
unfolding erase_all
find-erase_all_other [] m d apart = refl
find-erase_all_other (c ∷ cs) m d (ne, apart) =
    find-erase_all_other cs (erase c m) d apart ∙ find-erase_ne c d m ne

find-erase_all-none :
    (cs : List ℕ) (m : Map ℕ (List ℕ)) (d : ℕ) → find d m ≡ none → find d (erase_all cs m) ≡ none
unfolding erase_all
find-erase_all-none [] m d e = e
find-erase_all-none (c ∷ cs) m d e =
    find-erase_all-none cs (erase c m) d (ground (arith, find-erase c d m, e))

find-erase_all : (cs : List ℕ) (m : Map ℕ (List ℕ)) → All (λ c. find c (erase_all cs m) ≡ none) cs
unfolding erase_all
find-erase_all [] m = tt
find-erase_all (c ∷ cs) m = (
  find-erase_all-none cs (erase c m) c (ground (arith, find-erase c c m)),
  find-erase_all cs (erase c m),
)

module _ (t : Libxml) where
  abbrev pub without : List ℕ → Wiring t → Wiring t
  without cs s = record s { contexts = erase_all cs s.contexts }

  delete_private_lem :
      (s : Wiring t) (context : Option ℕ)
      → Deletable (own true context) s.contexts
      → delete_private t context s ≡ (ok tt, without (own true context) s)
  unfolding delete_private Deletable erase_all
  delete_private_lem s none d = refl
  delete_private_lem s (some context) ((pointers, found), _) = rw (delete_private, found) refl

  free_child_lem :
      (b : Bool) (context : Option ℕ) (cs : List ℕ) (below : Exec (Wiring t) (Unit {0}))
      (s : Wiring t)
      → Deletable (own b context ++ cs) s.contexts
      → (b ≡ true
          → (m : Map ℕ (List ℕ)) → Deletable cs m
          → below (record s { contexts = m }) ≡ (ok tt, record s { contexts = erase_all cs m }))
      → (b ≡ false → cs ≡ [])
      → free_child t b context below s ≡ (ok tt, without (own b context ++ cs) s)
  unfolding free_child erase_all
  free_child_lem true context cs below s d runs nothing =
      let (first, more) = Deletable-append (own true context) cs s.contexts d in
      let e = erase_all-append (own true context) cs s.contexts in
      rw (delete_private_lem s context first, e)
        (runs refl (erase_all (own true context) s.contexts) more)
  free_child_lem false context cs below s d runs nothing = rw (nothing refl) refl

  free_contexts_run :
      (fuel : ℕ) (shape : Shape) (o : Option ℕ) (s : Wiring t)
      → size shape ≤ fuel
      → Holds s.heap o shape
      → Deletable (contexts_of shape) s.contexts
      → free_contexts t fuel o s ≡ (ok tt, without (contexts_of shape) s)
  unfolding free_contexts size contexts_of load erase_all
  free_contexts_run fuel ends o s enough e d = rw e refl
  free_contexts_run zero (node_at a n below after) o s enough holds d = absurd (omega arith)
  free_contexts_run (suc fuel) (node_at a n below after) o s enough (e, at, inner, alone, onward)
        d =
      let cb = contexts_of below in
      let ca = contexts_of after in
      let here = own n.is_element n.private_ in
      let all : here ++ (cb ++ ca) ≡ (here ++ cb) ++ ca = sym (append_assoc here cb ca) in
      let (d₁, d₂) =
        Deletable-append (here ++ cb) ca s.contexts (subst (λ cs. Deletable cs s.contexts) all d) in
      let first : free_child t n.is_element n.private_ (λ u. free_contexts t fuel n.children u) s
          ≡ (ok tt, without (here ++ cb) s) =
        free_child_lem n.is_element n.private_ cb (λ u. free_contexts t fuel n.children u) s d₁
          (λ q m dm.
            free_contexts_run fuel below n.children (record s { contexts = m }) (omega arith)
              (inner q) dm)
          (λ q. ap contexts_of (alone q)) in
      let second : free_contexts t fuel n.next (without (here ++ cb) s)
          ≡ (ok tt, without ca (without (here ++ cb) s)) =
        free_contexts_run fuel after n.next (without (here ++ cb) s) (omega arith) onward d₂ in
      let joined : erase_all (here ++ (cb ++ ca)) s.contexts
          ≡ erase_all ca (erase_all (here ++ cb) s.contexts) =
        ap (λ (cs : List ℕ). erase_all cs s.contexts) all
        ∙ erase_all-append (here ++ cb) ca s.contexts in
      rw (e, joined) (rw (load, at) (rw (first, load, at) second))

  -- Where the nodes from a pointer on are a finite tree, each context of an element is there, and no two
  -- elements have the same one, `freeContexts` comes to its end within as many rounds as there are
  -- nodes, no context is deleted twice, all of them are gone, and no other one is.
  pub free_contexts_lem :
      (fuel : ℕ) (shape : Shape) (o : Option ℕ) (s : Wiring t)
      → size shape ≤ fuel
      → Holds s.heap o shape
      → Distinct (contexts_of shape)
      → All (InMap s.contexts) (contexts_of shape)
      → (m : Map ℕ (List ℕ)) × (free_contexts t fuel o s ≡ (ok tt, record s { contexts = m }))
        × All (λ c. find c m ≡ none) (contexts_of shape)
        × ((d : ℕ) → All (λ c. c ≢ d) (contexts_of shape) → find d m ≡ find d s.contexts)
  free_contexts_lem fuel shape o s enough holds distinct inside = (
    erase_all (contexts_of shape) s.contexts,
    free_contexts_run fuel shape o s enough holds
        (Distinct-Deletable (contexts_of shape) s.contexts distinct inside),
    find-erase_all (contexts_of shape) s.contexts,
    λ d apart. find-erase_all_other (contexts_of shape) s.contexts d apart,
  )

  -- What `~Site` does with the contexts, when it is known what the cleaning makes of the heap.
  pub destroy_cleaned :
      (fuel root_node : ℕ) (shape : Shape) (root : XmlNode) (g : Heap) (s : Wiring t)
      → clean_nodes t s ≡ (ok tt, record s { heap = g })
      → g root_node ≡ some root
      → size shape ≤ fuel
      → Holds g root.children shape
      → Distinct (contexts_of shape)
      → All (InMap s.contexts) (contexts_of shape)
      → (s' : Wiring t) × (destroy t fuel root_node s ≡ (ok tt, s'))
        × (s'.heap ≡ g)
        × (s'.nodes ≡ [])
        × All (λ c. find c s'.contexts ≡ none) (contexts_of shape)
        × ((d : ℕ) → All (λ c. c ≢ d) (contexts_of shape) → find d s'.contexts ≡ find d s.contexts)
  unfolding destroy load
  destroy_cleaned fuel root_node shape root g s cleaned at enough holds distinct inside =
      let bare = record s { heap = g; nodes_to_clean = []; nodes_to_clean2 = [] } in
      let (m, run, gone, kept) =
        free_contexts_lem fuel shape root.children bare enough holds distinct inside in
      (
        record bare { contexts = m; nodes = [] },
        ground (arith, cleaned, at, run),
        refl,
        refl,
        gone,
        kept,
      )
