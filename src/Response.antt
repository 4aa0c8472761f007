-- ===== src/Response.antt =====
-- The loop of `Response::query` in cpp/response.cpp that picks the rows of a page when the query is
-- filtered or asked for unique rows, and `Response::uniqueMatch`. Nodes and contexts are libxml2's
-- and cpp/context.cpp's: `Rows` says what the loop asks of them.
pub mod Options
pub mod Filter
pub mod Sort
pub mod Create
pub mod Serve
pub mod Window
pub mod Query
pub mod Laws
mod Examples
use vae_thrift.Prelude.{
  ℕ, ◌+◌, ltb, if◌then◌else◌, Bool, true, false, not, ◌&&◌, ◌||◌, Option, none, some, List, [], ◌∷◌,
  ◌++◌, ite,
}
use vae_thrift.Prelude.Bytes.{Bytes, bytes}
use vae_thrift.Prelude.Eq.{Bytes-discrete}
use vae_thrift.Exec.{Result, ok, and_then, map_result}

-- `filterMatch(node)`, `(Context *)node->_private`, and `getData` of each of the fields
-- `uniqueFields`, in their order, up to the first that throws. Where a node has no context, the first
-- `getData` is undefined.
pub record Rows : Type 1 where
  pub Node : Type 0
  pub Context : Type 0
  pub filter_match : Node → Bool
  pub context_of : Node → Option Context
  pub unique_data : Node → Result (List Bytes)

-- `val += context->getData(*it) + "~!~"`, over the fields.
unfoldable pub unique_value : List Bytes → Bytes
unique_value [] = []
unique_value (d ∷ ds) = d ++ (bytes "~!~" ++ unique_value ds)

-- `uniqueFound.find(val) != uniqueFound.end()`
unfoldable pub is_found : Bytes → List Bytes → Bool
is_found v [] = false
is_found v (w ∷ found) = ite (Bytes-discrete w v) true (is_found v found)

-- The total, the counters and the contexts of the loop.
pub record Page (Context : Type 0) : Type 0 where
  pub total : ℕ
  pub skipped : ℕ
  pub included : ℕ
  pub contexts : List Context

module _ (r : Rows) (filter unique : Bool) where
  open r use {Node, Context, filter_match, context_of, unique_data}

  -- `uniqueMatch(node)`, with the new `uniqueFound`.
  unfoldable pub unique_match : Node → List Bytes → Result (Bool × List Bytes)
  unique_match node found =
      map_result
        (λ (data' : List Bytes).
          let val = unique_value data' in
          if is_found val found then (false, found) else (true, val ∷ found))
        (unique_data node)

  -- `(!filter || filterMatch(node)) && (!unique || uniqueMatch(node))`: the second test is made, and
  -- has its effect, only if the first holds.
  unfoldable pub is_match : Node → List Bytes → Result (Bool × List Bytes)
  is_match node found =
      if not filter || filter_match node
      then (if unique then unique_match node found else ok (true, found))
      else ok (false, found)

  -- What the loop does with a node that matches.
  unfoldable pub include_node : ℕ → ℕ → Node → Page Context → Page Context
  include_node start end node p =
      if ltb p.skipped start
      then record p { total = p.total + 1; skipped = p.skipped + 1 }
      else if ltb (p.included + p.skipped) end
      then elim (context_of node) [
        | none ↦ record p { total = p.total + 1 }
        | some ctxt ↦ record p {
          total = p.total + 1;
          included = p.included + 1;
          contexts = p.contexts ++ (ctxt ∷ []);
        }
      ]
      else record p { total = p.total + 1 }

  -- The loop, with the values `found` in `uniqueFound`.
  unfoldable pub pick_rows : ℕ → ℕ → List Node → List Bytes → Page Context → Result (Page Context)
  pick_rows start end [] found p = ok p
  pick_rows start end (node ∷ nodes) found p =
      and_then (is_match node found) λ (m : Bool × List Bytes).
        pick_rows start end nodes m.1 (if m.0 then include_node start end node p else p)

  abbrev pub first_page : Page Context
  first_page = record { total = 0; skipped = 0; included = 0; contexts = [] }
