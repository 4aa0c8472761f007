-- ===== src/Association/Free.antt =====
-- The end of a site: `~Site` and `freeContexts` of cpp/site.cpp. The structures are values here, and
-- so are not deleted.
pub mod Laws
pub mod Owners
mod Examples
use vae_thrift.Prelude.{ℕ, zero, suc, Bool, true, false, Option, none, some, List, [], ◌∷◌, ◌++◌}
use vae_thrift.Prelude.Eq.{nat_eq}
use vae_thrift.Prelude.Map.{Map, find, erase}
use vae_thrift.Exec.{Result, ok, undefined, diverges, Exec, pure, modify, ◌>>=◌, ◌>>◌}
use vae_thrift.Association.{XmlNode, Heap, Libxml, Wiring, load, clean_nodes}

module _ (t : Libxml) where
  -- `if (child->_private != NULL) delete (Context *)child->_private;`, which is undefined for a context
  -- that was deleted before.
  unfoldable pub delete_private : Option ℕ → Exec (Wiring t) (Unit {0})
  delete_private none s = (ok tt, s)
  delete_private (some context) s = elim (find context s.contexts) [
    | none ↦ (undefined, s)
    | some pointers ↦ (ok tt, record s { contexts = erase context s.contexts })
  ]

  -- What the loop does with one child, where `below` frees the contexts below it.
  unfoldable pub free_child :
      Bool → Option ℕ → Exec (Wiring t) (Unit {0}) → Exec (Wiring t) (Unit {0})
  free_child true context below = do delete_private context; below
  free_child false context below = pure tt

  -- `freeContexts`, from a child on; `fuel` bounds the nodes.
  unfoldable pub free_contexts : ℕ → Option ℕ → Exec (Wiring t) (Unit {0})
  free_contexts fuel none s = (ok tt, s)
  free_contexts zero (some child) s = (diverges, s)
  free_contexts (suc fuel) (some child) s =
      let rest : Option ℕ → Exec (Wiring t) (Unit {0}) = λ o. free_contexts fuel o in
      (do
        c ← load t child
        free_child c.is_element c.private_ (rest c.children)
        c' ← load t child
        rest c'.next)
        s

  -- `~Site`, up to what libxml2 frees.
  unfoldable pub destroy : ℕ → ℕ → Exec (Wiring t) (Unit {0})
  destroy fuel root_node = do
    clean_nodes t
    modify λ s. record s { nodes_to_clean = []; nodes_to_clean2 = [] }
    root ← load t root_node
    free_contexts fuel root.children
    modify λ s. record s { nodes = [] }
