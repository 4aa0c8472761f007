-- ===== src/Association/Run.antt =====
-- The run of `initializeAssociation` on an item whose other node is found.
use vae_thrift.Prelude.{
  All-map, ℕ, ◌≡◌, ◌≢◌, subst, ◌∙◌, ite, none, some, List, [], ◌∷◌, ◌++◌, arith, All, All-append,
  ℕ_discrete,
}
use vae_thrift.Prelude.Eq.{int_eq, nat_eq}
use vae_thrift.Prelude.Map.{Map, find, assign, erase, find-assign}
use vae_thrift.Exec.{ok}
use vae_thrift.Association.{Heap, Libxml, Wiring, load, reverse, pointer_nodes, push_pointer, wire}
use vae_thrift.Association.Chains.{Relast}
use vae_thrift.Association.Forward.{Item, forwarded, forward_lem}
use vae_thrift.Association.Reverse.{Documented, Family, before, pointer_node, associated_before}
use vae_thrift.Association.Hung.{now, node_now, parent_now, IsLive-now}
use vae_thrift.Association.Pointers.{IsLive, HasLast, set_lasts_lem}

-- The contexts of the item's parent and of the other node, with the pointer nodes placed before.
pub record Places (t : Libxml) (s : Wiring t) (this node associated : ℕ)
    (i : Item t s node associated) : Type 0 where
  pub above : ℕ
  pub below : ℕ
  pub above_pointers : List ℕ
  pub below_pointers : List ℕ
  pub above_lem : i.q.private_ ≡ some above
  pub below_lem : i.m.private_ ≡ some below
  pub above_at : find above s.contexts ≡ some above_pointers
  pub below_at : find below s.contexts ≡ some below_pointers
  pub pointers_live : All (IsLive s.heap) below_pointers
  pub this_apart : (this ≢ above) × (this ≢ below)

module _ (t : Libxml) (d : Documented t) (s : Wiring t) (this node associated : ℕ)
    (i : Item t s node associated) (fam : Family t s node associated i)
    (at : Places t s this node associated i) where
  -- The contexts, once the parent's has the new pointer node.
  abbrev pub placed : ℕ → Map ℕ (List ℕ)
  placed p = assign at.above (at.above_pointers ++ (p ∷ [])) s.contexts

  pub placed_pointers : (p : ℕ) → List ℕ
  placed_pointers p =
      ite (ℕ_discrete at.above at.below) (at.above_pointers ++ (p ∷ [])) at.below_pointers

  pub placed_lem : (p : ℕ) → find at.below (placed p) ≡ some (placed_pointers p)
  unfolding placed_pointers
  placed_lem p =
      ground (
        arith,
        find-assign at.above at.below (at.above_pointers ++ (p ∷ [])) s.contexts,
        at.below_at,
      )

  pub pointer_now :
      (p : ℕ) (fresh : before t d s node associated i fam p ≡ none)
      → now t d s node associated i fam p fresh p ≡ some (pointer_node t d s node associated i fam)
  pointer_now p fresh =
      ground (arith, fresh, associated_before t d s node associated i fam, fam.last_at)

  pointers_stay :
      (p : ℕ) (fresh : before t d s node associated i fam p ≡ none)
      → All (IsLive (now t d s node associated i fam p fresh)) (placed_pointers p)
  unfolding placed_pointers
  pointers_stay p fresh =
      let h = now t d s node associated i fam p fresh in
      let old_live : All (IsLive h) at.below_pointers =
        All-map at.below_pointers (IsLive-now t d s node associated i fam p fresh)
          at.pointers_live in
      let new_live : All (IsLive h) (p ∷ []) =
        ((pointer_node t d s node associated i fam, pointer_now p fresh), tt) in
      elim (ℕ_discrete at.above at.below)
        as (λ o. All (IsLive h) (ite o (at.above_pointers ++ (p ∷ [])) at.below_pointers)) [
          | yes e ↦
              let same : at.below_pointers ≡ at.above_pointers =
                ground (arith, at.above_at, at.below_at) in
              All-append (IsLive h) at.above_pointers (p ∷ [])
                (subst (All (IsLive h)) same old_live) new_live
          | no ne ↦ old_live
        ]

  abbrev pub wired : ℕ → Heap → Wiring t
  wired p g = record (forwarded t s node associated i) {
    heap = g;
    nodes_to_clean = s.nodes_to_clean ++ (p ∷ []);
    contexts = erase this (placed p);
  }

  pub wire_run :
      (p : ℕ) (h : Heap) (fresh : before t d s node associated i fam p ≡ none)
      → reverse t node associated (forwarded t s node associated i) ≡ (
        ok p,
        record (forwarded t s node associated i) {
          heap = h;
          nodes_to_clean = s.nodes_to_clean ++ (p ∷ []);
        },
      )
      → ((b : ℕ) → h b ≡ now t d s node associated i fam p fresh b)
      → (g : Heap) × (wire t this node associated s ≡ (ok tt, wired p g))
        × ((b : ℕ) → Relast (some p) (h b) (g b))
        × All (HasLast g (some p)) (placed_pointers p)
  unfolding wire load push_pointer pointer_nodes
  wire_run p h fresh run same =
      let (n, n_at, _, up, _, _) = node_now t d s node associated i fam p fresh in
      let (q, q_at, _, _, q_context) = parent_now t d s node associated i fam p fresh in
      let m_at : h associated ≡ some (record i.m { last = some p }) =
        same associated ∙ ground arith in
      let hung : Wiring t = record (forwarded t s node associated i) {
        heap = h;
        nodes_to_clean = s.nodes_to_clean ++ (p ∷ []);
        contexts = placed p;
      } in
      let (g, lasts, relast, has) =
        set_lasts_lem t associated hung (placed_pointers p) (record i.m { last = some p }) m_at
          (All-map (placed_pointers p) (λ a (x, e). (x, same a ∙ e)) (pointers_stay p fresh)) in
      let n_here : h node ≡ some n = same node ∙ n_at in
      let q_here : h i.parent ≡ some q = same i.parent ∙ q_at in
      let context : q.private_ ≡ some at.above = q_context ∙ at.above_lem in
      (
        g,
        ground (
          arith,
          forward_lem t s node associated i d.nothing_freed,
          run,
          n_here,
          q_here,
          m_at,
          up,
          context,
          at.above_at,
          at.below_lem,
          placed_lem p,
          lasts,
        ),
        relast,
        has,
      )
