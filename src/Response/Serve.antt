-- ===== src/Response/Serve.antt =====
-- A whole response of cpp/response.cpp: the first constructor, which puts the options, the queries
-- of the site, the filter and the window together, and what the handler writes for a client.
use mathlib.Core.List.{flatten}
use vae_thrift.Prelude.{ℕ, Bool, true, false, Option, none, some, List, [], ◌∷◌, ◌++◌, map}
use vae_thrift.Prelude.Int.{ℤ}
use vae_thrift.Prelude.Bytes.{Bytes}
use vae_thrift.Prelude.Map.{Map}
use vae_thrift.Exec.{Result, ok, undefined, and_then, map_result}
use vae_thrift.Xml.{Node}
use vae_thrift.Query.Rewrite.{Pcre}
use vae_thrift.Response.{Rows}
use vae_thrift.Response.Filter.{filter_match}
use vae_thrift.Response.Options.{Settings, SortField, read_options}
use vae_thrift.Response.Query.{Orders, ResponseContext, query_rows}

-- What a response asks of the site and its contexts: the tree and the context of a node, `getData`
-- of a context, with what it throws, the nodes of `fetch_query`, and the C++ library's orders by some fields.
pub record Source : Type 1 where
  pub Row : Type 0
  pub Context : Type 0
  pub tree_of : Row → Node
  pub context_of : Row → Option Context
  pub data_of : Context → Bytes → Result Bytes
  pub fetch_query : Option Context → Bytes → Result (List Row)
  pub orders : List SortField → Orders Context

abbrev pub is_set {ℓ} : {A : Type ℓ} → Option A → Bool
is_set none = false
is_set (some a) = true

abbrev pub terms_of : Option (List Bytes) → List Bytes
terms_of none = []
terms_of (some terms) = terms

module _ (s : Source) (ceil_quotient : ℤ → ℤ → Option ℤ) where
  open s use {Row, Context, tree_of, context_of, data_of, fetch_query, orders}

  -- The loop of `uniqueMatch` over the fields: `context` is read only for a field.
  unfoldable pub read_unique : Option Context → List Bytes → Result (List Bytes)
  read_unique context [] = ok []
  read_unique none (field ∷ fields) = undefined
  read_unique (some context) (field ∷ fields) =
      let rest = read_unique (some context) fields in
      and_then (data_of context field) λ data'. map_result (λ more. data' ∷ more) rest

  -- The rows, as the loops over them see them under the settings.
  abbrev pub rows_of : Settings → Rows
  rows_of settings = record {
    Node = Row;
    Context = Context;
    filter_match = λ row. filter_match (terms_of settings.filter_terms) (tree_of row);
    context_of = context_of;
    unique_data = λ row. read_unique (context_of row) (terms_of settings.unique_fields);
  }

  -- `Response::query`
  unfoldable pub query : Settings → Option Context → Bytes → Result (ResponseContext Context)
  query settings context q = and_then (fetch_query context q) λ (rows : List Row).
      query_rows (rows_of settings) (orders settings.sort_fields) (is_set settings.filter_terms)
        (is_set settings.unique_fields) ceil_quotient settings.paging rows

  unfoldable pub query_each :
      Settings → List Context → Bytes → Result (List (ResponseContext Context))
  query_each settings [] q = ok []
  query_each settings (context ∷ contexts) q =
      let more = query_each settings contexts q in
      and_then (query settings (some context) q) λ found. map_result (λ rest. found ∷ rest) more

  -- The constructor, below each context of the parent's, or at the root.
  unfoldable pub new_response :
      Pcre
      → Map Bytes Bytes
      → Option (List (ResponseContext Context))
      → Bytes
      → Result (List (ResponseContext Context))
  new_response p options none q =
      map_result (λ found. found ∷ []) (query (read_options p options) none q)
  new_response p options (some parent) q =
      query_each (read_options p options)
        (flatten (map (λ (c : ResponseContext Context). c.contexts) parent)) q

-- `writeVaeDbResponse`, where `view` is `toVaeDbContext`.
unfoldable pub write_response {ℓ} :
    {A : Type 0} {B : Type ℓ} → (A → B) → List (ResponseContext A) → List (List B × ℕ)
write_response view [] = []
write_response view (c ∷ cs) = (map view c.contexts, c.total) ∷ write_response view cs

-- `writeVaeDbDataResponse` and `writeVaeDbStructureResponse`, where `view` is
-- `toVaeDbDataForContext` or `toVaeDbStructureForContext`.
unfoldable pub write_contexts {ℓ} :
    {A : Type 0} {B : Type ℓ} → (A → B) → List (ResponseContext A) → List B
write_contexts view [] = []
write_contexts view (c ∷ cs) = map view c.contexts ++ write_contexts view cs
