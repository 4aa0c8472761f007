-- ===== src/Response/Query/Examples.antt =====
-- The second page of five rows, two on a page, in reverse order and filtered.
use vae_thrift.Prelude.{
  ℕ, ◌+◌, ◌-◌, ◌*◌, ◌≡◌, refl, ltb, true, false, some, List, [], ◌∷◌, length, arith,
}
use vae_thrift.Prelude.Bytes.{bytes}
use vae_thrift.Prelude.Int.{pos, ◌+ℤ◌, ◌-ℤ◌, ◌*ℤ◌}
use vae_thrift.Exec.{ok, and_then, map_result}
use vae_thrift.Response.{Rows, pick_rows, include_node, is_match}
use vae_thrift.Response.Laws.{contexts_of}
use vae_thrift.Response.Window.{reverse, Paging, window, raw_window, plain_page, page_number, range}
use vae_thrift.Response.Window.Examples.{rounded_up}
use vae_thrift.Response.Query.{
  Orders, query_rows, choose_rows, order_contexts, order_and_trim, trim, reverse_onto,
}
use vae_thrift.Response.Query.Picked.{selected}
use vae_thrift.Response.Query.Laws.{slice, query_rows_lem}

abbrev small : Rows
small = record {
  Node = ℕ;
  Context = ℕ;
  filter_match = λ node. ltb node 5;
  context_of = λ node. some node;
  unique_data = λ node. ok (bytes "a" ∷ []);
}

abbrev orders : Orders ℕ
orders = record { random_shuffle = λ cs. cs; sort = λ cs. ok cs }

abbrev five_rows : List ℕ
five_rows = 1 ∷ 2 ∷ 6 ∷ 3 ∷ 4 ∷ []

abbrev second_page : Paging
second_page = record {
  groups = pos 0;
  skip = pos 0;
  page = pos 2;
  paginate = pos 2;
  sort_type = reverse;
}

shown :
    query_rows small orders true false rounded_up second_page five_rows
    ≡ ok (record { contexts = 2 ∷ 1 ∷ []; total = 4 })
unfolding query_rows window raw_window plain_page page_number range choose_rows pick_rows
    include_node is_match order_and_trim order_contexts trim reverse_onto ◌+ℤ◌ ◌-ℤ◌ ◌*ℤ◌
shown = refl

query_rows_lem_example :
    query_rows small orders true false rounded_up second_page five_rows
    ≡ and_then (selected small orders true false five_rows) (λ (rows : List ℕ).
      map_result
        (slice small orders true false (0 + (2 - 1) * 2) 2 (length rows))
        (order_contexts small orders true false reverse (contexts_of small true false rows)))
query_rows_lem_example =
    query_rows_lem small orders true false rounded_up reverse 0 2 2 five_rows
      ((1, refl), ((2, refl), ((6, refl), ((3, refl), ((4, refl), tt))))) (omega arith)
      (omega arith) (omega arith) (omega arith)
