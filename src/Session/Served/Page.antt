-- ===== src/Session/Served/Page.antt =====
-- A query at the root, from the call on a session to the rows of the answer.
use vae_thrift.Prelude.{
  ℕ, ◌+◌, ◌-◌, ◌*◌, ◌^◌, ◌<◌, ◌≤◌, ◌≡◌, refl, ap, ◌∙◌, none, some, List, [], ◌∷◌, map, length, take,
  drop, All, Option,
}
use vae_thrift.Prelude.Int.{ℤ, pos}
use vae_thrift.Prelude.Eq.{ℤ-discrete}
use vae_thrift.Prelude.Bytes.{Bytes}
use vae_thrift.Prelude.Map.{Map}
use vae_thrift.Exec.{Result, ok, and_then, map_result}
use vae_thrift.Query.Rewrite.{Pcre}
use vae_thrift.Response.Laws.{contexts_of}
use vae_thrift.Response.Options.{read_options}
use vae_thrift.Response.Window.{max_int}
use vae_thrift.Response.Query.{ResponseContext, query_rows, order_contexts}
use vae_thrift.Response.Query.Picked.{selected}
use vae_thrift.Response.Query.Laws.{slice, query_rows_lem}
use vae_thrift.Response.Create.{Pages}
use vae_thrift.Response.Serve.{Source, rows_of, is_set, query, new_response, write_response}
use vae_thrift.Session.{Responses, Session, get, parent_of}
use vae_thrift.Session.Laws.{to_int32_small, grown}
use vae_thrift.Session.Served.{Views, served}

module _ (source : Source) (p : Pcre) (ceil_quotient : ℤ → ℤ → Option ℤ) where
  -- The rows that a query with these options is about, or what a test on a row throws, and the contexts
  -- of rows in the order asked for.
  abbrev pub rows_for : Map Bytes Bytes → List source.Row → Result (List source.Row)
  rows_for o rows =
      let settings = read_options p o in
      selected (rows_of source ceil_quotient settings) (source.orders settings.sort_fields)
        (is_set settings.filter_terms) (is_set settings.unique_fields) rows

  abbrev pub ordered : Map Bytes Bytes → List source.Row → Result (List source.Context)
  ordered o rows =
      let settings = read_options p o in
      let r = rows_of source ceil_quotient settings in
      let orders = source.orders settings.sort_fields in
      let filter = is_set settings.filter_terms in
      let unique = is_set settings.unique_fields in
      order_contexts r orders filter unique settings.paging.sort_type
        (contexts_of r filter unique rows)

  abbrev pub page_of : ℕ → ℕ → ℕ → List source.Context → List (ResponseContext source.Context)
  page_of before paginate total cs =
      record { contexts = take paginate (drop before cs); total = total } ∷ []

  root_query :
      (q : Bytes) (o : Map Bytes Bytes) (rows found : List source.Row) (skip page paginate : ℕ)
      (cs : List source.Context)
      → source.fetch_query none q ≡ ok rows
      → All (λ row. (c : source.Context) × (source.context_of row ≡ some c)) rows
      → (read_options p o).paging ≡ record {
        groups = pos 0;
        skip = pos skip;
        page = pos page;
        paginate = pos paginate;
        sort_type = (read_options p o).paging.sort_type;
      }
      → 0 < page
      → 0 < paginate
      → page ≤ max_int
      → paginate + (skip + (page - 1) * paginate) ≤ max_int
      → rows_for o rows ≡ ok found
      → ordered o found ≡ ok cs
      → new_response source ceil_quotient p o none q
        ≡ ok (page_of (skip + (page - 1) * paginate) paginate (length found) cs)
  unfolding new_response query
  root_query q o rows found skip page paginate cs fetched complete plain a b c d tested sorted =
      let settings = read_options p o in
      let r = rows_of source ceil_quotient settings in
      let orders = source.orders settings.sort_fields in
      let filter = is_set settings.filter_terms in
      let unique = is_set settings.unique_fields in
      let slices =
        query_rows_lem r orders filter unique ceil_quotient settings.paging.sort_type skip page
          paginate rows complete a b c d in
      let before = skip + (page - 1) * paginate in
      let shows : query source ceil_quotient settings none q
          ≡ ok (slice r orders filter unique before paginate (length found) cs) =
        ap (λ x. and_then x (query_rows r orders filter unique ceil_quotient settings.paging))
          fetched
        ∙ ap (λ pg. query_rows r orders filter unique ceil_quotient pg rows) plain
        ∙ slices
        ∙ ap
            (λ x. and_then x (λ (some_rows : List source.Row).
              map_result (slice r orders filter unique before paginate (length some_rows)) (
                order_contexts r orders filter unique settings.paging.sort_type
                  (contexts_of r filter unique some_rows))))
            tested
        ∙ ap (map_result (slice r orders filter unique before paginate (length found))) sorted in
      ap (map_result (λ c. c ∷ [])) shows

module _ {Site : Type 0} (source : Source) (pages : Pages source.Context)
    (views : Views source.Context) (p : Pcre) (ceil_quotient : ℤ → ℤ → Option ℤ) where
  abbrev client : Responses Site
  client = served source pages views p ceil_quotient

  -- A query at the root whose rows all have contexts, which asks for the page `page` of `paginate` rows
  -- behind the first `skip`, without groups and within the range of an int, in a session with less than
  -- 2^31 - 1 responses: where no test on a row throws, the rows `found` pass the filter and the
  -- uniqueness, and their order succeeds with the contexts `cs`, the query returns the next number and
  -- one page, that part of `cs`, with the number of the rows that pass, and the session keeps the
  -- response behind its others.
  pub get_page :
      (s : Session client) (q : Bytes) (o : Map Bytes Bytes) (rows found : List source.Row)
      (skip page paginate : ℕ) (cs : List source.Context)
      → length s.responses + 1 < 2 ^ 31
      → source.fetch_query none q ≡ ok rows
      → All (λ row. (c : source.Context) × (source.context_of row ≡ some c)) rows
      → (read_options p o).paging ≡ record {
        groups = pos 0;
        skip = pos skip;
        page = pos page;
        paginate = pos paginate;
        sort_type = (read_options p o).paging.sort_type;
      }
      → 0 < page
      → 0 < paginate
      → page ≤ max_int
      → paginate + (skip + (page - 1) * paginate) ≤ max_int
      → rows_for source p ceil_quotient o rows ≡ ok found
      → ordered source p ceil_quotient o found ≡ ok cs
      → get client s (pos 0) q o
        ≡ ok (
          record {
            id = pos (length s.responses + 1);
            contexts =
                (
                  map views.view (take paginate (drop (skip + (page - 1) * paginate) cs)),
                  length found,
                )
                ∷ [];
          },
          grown client s (
              page_of source p ceil_quotient
                (skip + (page - 1) * paginate)
                paginate
                (length found)
                cs),
        )
  unfolding get parent_of write_response ℤ-discrete
  get_page s q o rows found skip page paginate cs fits fetched complete plain a b c d tested
        sorted =
      let shows =
        root_query source p ceil_quotient q o rows found skip page paginate cs fetched complete
          plain a b c d tested sorted in
      let number = to_int32_small client (length s.responses + 1) fits in
      rw (get, shows, number) refl
