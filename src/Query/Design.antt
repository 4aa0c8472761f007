-- ===== src/Query/Design.antt =====
-- `runDesignQuery` in cpp/query.cpp: a query of the design of a site, below the structure of a
-- context.
use vae_thrift.Prelude.{ℕ, Option, none, some, List, [], ◌∷◌, ◌++◌}
use vae_thrift.Prelude.Int.{ℤ}
use vae_thrift.Prelude.Bytes.{Bytes, bytes}
use vae_thrift.Exec.{Result, ok, undefined, and_then}
use vae_thrift.Query.{Engine, run_raw_query}

-- `getStructureId` of a context, which reads through a null pointer where it has no structure; the
-- site's `rootDesignNode`; the decimal output of a stream.
pub record Designed : Type 0 where
  pub engine : Engine
  pub structure_id : ℕ → Option ℤ
  pub root_design_node : Option ℕ
  pub show : ℤ → Bytes

module _ (d : Designed) where
  open d use {engine, structure_id, root_design_node, show}

  abbrev pub structure_query : ℤ → Bytes
  structure_query id = bytes "/website/design//*[@id=" ++ (show id ++ bytes "]")

  -- The node of a structure. `getNode(0)` of an empty node set is undefined.
  unfoldable pub structure_node : ℤ → Result ℕ
  structure_node id =
      and_then (run_raw_query engine none (structure_query id) (structure_query id))
        λ found. elim found [ [] ↦ undefined | node ∷ more ↦ ok node ]

  unfoldable pub run_design_query : Option ℕ → Bytes → Result (List ℕ)
  run_design_query none query = run_raw_query engine root_design_node query query
  run_design_query (some context) query = elim (structure_id context) [
    | none ↦ undefined
    | some id ↦ and_then (structure_node id) λ node. run_raw_query engine (some node) query query
  ]
