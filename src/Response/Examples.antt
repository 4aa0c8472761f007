-- ===== src/Response/Examples.antt =====
-- Four rows: the first two have the same data, and the last has no context.
use vae_thrift.Prelude.{ℕ, ◌≡◌, refl, true, false, Option, none, some, List, [], ◌∷◌, ℕ_discrete}
use vae_thrift.Prelude.Bytes.{Bytes, bytes}
use vae_thrift.Prelude.Eq.{Bytes-discrete}
use vae_thrift.Exec.{ok, map_result}
use vae_thrift.Response.Laws.{matching, page_view, rows_view, pick_rows_window}
use vae_thrift.Response.{
  Rows, Page, unique_value, is_found, unique_match, is_match, include_node, pick_rows, first_page,
}

abbrev numbered : Rows
numbered = record {
  Node = Bytes × Option ℕ;
  Context = ℕ;
  filter_match = λ node. true;
  context_of = λ node. node.1;
  unique_data = λ node. ok (node.0 ∷ []);
}

abbrev four_rows : List (Bytes × Option ℕ)
four_rows = (bytes "a", some 1) ∷ (bytes "a", some 2) ∷ (bytes "b", some 3) ∷ (bytes "c", none) ∷ []

second_of_unique :
    map_result
      (λ (page : Page ℕ). page.contexts)
      (pick_rows numbered false true 1 3 four_rows [] (first_page numbered false true))
    ≡ ok (3 ∷ [])
unfolding pick_rows include_node is_match unique_match is_found unique_value Bytes-discrete
    ℕ_discrete
second_of_unique = refl

pick_rows_window_example :
    map_result
      (page_view numbered false true)
      (pick_rows numbered false true 1 3 four_rows [] (first_page numbered false true))
    ≡ map_result (rows_view numbered false true 1 3) (matching numbered false true four_rows [])
pick_rows_window_example = pick_rows_window numbered false true 1 3 four_rows
