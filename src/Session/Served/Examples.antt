-- ===== src/Session/Served/Examples.antt =====
-- The second page of five rows in reverse order, two on a page.
use vae_thrift.Prelude.{ℕ, ◌+◌, ◌≡◌, refl, some, List, [], ◌∷◌, map, arith}
use vae_thrift.Prelude.Int.{pos}
use vae_thrift.Prelude.Bytes.{Bytes, bytes}
use vae_thrift.Prelude.Map.{Map, find}
use vae_thrift.Prelude.Atoi.{atoi}
use vae_thrift.Prelude.Eq.{Bytes-discrete}
use vae_thrift.Exec.{ok, map_result}
use vae_thrift.Xml.{other}
use vae_thrift.Query.Examples.{pcre}
use vae_thrift.Query.Rewrite.{same_caseless}
use vae_thrift.Response.Options.{read_options, read_order, order_option, int_option, page_option}
use vae_thrift.Response.Window.Examples.{rounded_up}
use vae_thrift.Response.Create.{Pages, create_infos}
use vae_thrift.Response.Query.{ResponseContext, order_contexts, reverse_onto}
use vae_thrift.Response.Serve.{Source, query_each, write_response}
use vae_thrift.Session.{Responses, Session, Answer, get, create_info, data_of, structure}
use vae_thrift.Session.Threads.{idle, here}
use vae_thrift.Session.Served.{Views, served, shown}
use vae_thrift.Session.Served.Laws.{pages_agree}
use vae_thrift.Session.Served.Page.{ordered, rows_for, page_of, get_page}

abbrev posts : Source
posts = record {
  Row = ℕ;
  Context = ℕ;
  tree_of = λ row. other;
  context_of = λ row. some row;
  data_of = λ context field. ok field;
  fetch_query = λ context q. ok (1 ∷ 2 ∷ 3 ∷ 4 ∷ 5 ∷ []);
  orders = λ fields. record { random_shuffle = λ cs. cs; sort = λ cs. ok cs };
}

abbrev design : Pages ℕ
design = record {
  split = pcre.split (bytes "/");
  join = pcre.join (bytes "/");
  fetch_query = λ context q. ok [];
  run_design_query = λ context q. ok (((bytes "id", bytes "7") ∷ []) ∷ []);
  id_of = λ context. pos context;
}

abbrev plus_ten : Views ℕ
plus_ten = record {
  View = ℕ;
  DataView = Bytes;
  StructureView = ℕ × ℕ;
  view = λ context. context + 10;
  data_view = λ context. context ∷ [];
  structure_view = λ context. (context, 0);
}

abbrev blog : Responses ℕ
blog = served posts design plus_ten pcre rounded_up

abbrev options : Map Bytes Bytes
options =
    (bytes "paginate", bytes "2") ∷ (bytes "page", bytes "2") ∷ (bytes "order", bytes "DESC()") ∷ []

abbrev five : List ℕ
five = 1 ∷ 2 ∷ 3 ∷ 4 ∷ 5 ∷ []

abbrev fresh : Session {Site = ℕ} blog
fresh = record { created_at = 0; responses = []; site = 0 }

second_page : (read_options pcre options).paging ≡ record {
  groups = pos 0;
  skip = pos 0;
  page = pos 2;
  paginate = pos 2;
  sort_type = (read_options pcre options).paging.sort_type;
}
unfolding read_options int_option page_option order_option read_order same_caseless find atoi
    Bytes-discrete
second_page = refl

reversed : ordered posts pcre rounded_up options five ≡ ok (5 ∷ 4 ∷ 3 ∷ 2 ∷ 1 ∷ [])
unfolding order_contexts reverse_onto read_options order_option read_order same_caseless find
    Bytes-discrete
reversed = refl

all_five : rows_for posts pcre rounded_up options five ≡ ok five
unfolding read_options find Bytes-discrete
all_five = refl

abbrev shown_page : List (ResponseContext ℕ)
shown_page = page_of posts pcre rounded_up 2 2 5 (5 ∷ 4 ∷ 3 ∷ 2 ∷ 1 ∷ [])

get_page_example :
    get blog fresh (pos 0) (bytes "posts") options
    ≡ ok (
      record { id = pos 1; contexts = (13 ∷ 12 ∷ [], 5) ∷ [] },
      record { created_at = 0; responses = shown_page ∷ []; site = 0 },
    )
unfolding read_options find Bytes-discrete
get_page_example =
    get_page posts design plus_ten pcre rounded_up fresh (bytes "posts") options five five 0 2 2
      (5 ∷ 4 ∷ 3 ∷ 2 ∷ 1 ∷ []) (omega arith) refl
      ((1, refl), ((2, refl), ((3, refl), ((4, refl), ((5, refl), tt))))) second_page (omega arith)
      (omega arith) (omega arith) (omega arith) all_five reversed

abbrev answered : Answer {Site = ℕ} blog
answered = record { id = pos 1; contexts = (13 ∷ 12 ∷ [], 5) ∷ [] }

abbrev after : Session {Site = ℕ} blog
after = record { created_at = 0; responses = shown_page ∷ []; site = 0 }

pages_agree_example :
    (response : List (ResponseContext ℕ)) × ((13 ∷ 12 ∷ [], 5) ∷ []
      ≡ write_response plus_ten.view response)
    × (data_of blog after (pos 1) ≡ ok (map plus_ten.data_view (shown response)))
    × (structure blog after (pos 1) ≡ ok (map plus_ten.structure_view (shown response)))
    × ((path : Bytes)
        → create_info blog after (pos 1) path ≡ create_infos design (shown response) path)
    × ((q : Bytes) (o : Map Bytes Bytes)
        → map_result
            (λ (x : Answer {Site = ℕ} blog × Session {Site = ℕ} blog). x.0.contexts)
            (get blog after (pos 1) q o)
          ≡ map_result
              (write_response plus_ten.view)
              (query_each posts rounded_up (read_options pcre o) (shown response) q))
pages_agree_example =
    pages_agree posts design plus_ten pcre rounded_up fresh after (pos 0) (bytes "posts") options
      answered (λ t. idle) (record { session = after; threads = λ t. idle }) (omega arith)
      get_page_example here
