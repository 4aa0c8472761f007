-- ===== src/Context.antt =====
-- cpp/context.cpp: what a context remembers of the answers to its queries, and the data of its
-- node. A query of the document is a parameter here: `size` is `getSize()` and `single` is
-- `getSingleData()` of `Query(site, this, q)`, or what its constructor throws.
pub mod Laws
mod Examples
use vae_thrift.Prelude.{ℕ, if◌then◌else◌, Bool, true, false, Option, none, some, List, [], ◌∷◌, ite}
use vae_thrift.Prelude.Int.{ℤ}
use vae_thrift.Prelude.Bytes.{Bytes, bytes}
use vae_thrift.Prelude.Eq.{Bytes-discrete, bytes_eq}
use vae_thrift.Prelude.Map.{Map, find, assign}
use vae_thrift.Exec.{Result, ok, raise, Exec, pure, lift, modify, gets, ◌>>=◌, ◌>>◌, internal_error}
use vae_thrift.Xml.{Node, element, text, other, Nodes, nil, cons, children}

abbrev pub collection_desc : Bytes
collection_desc = bytes "(collection)"

-- `content` after the inner loop of `populateData`: the last text, or the description as soon as
-- another node comes.
unfoldable pub content_of : Option Bytes → Nodes → Option Bytes
content_of content nil = content
content_of content (cons (text t) rest) = content_of (some t) rest
content_of content (cons (element a name attrs kids) rest) = some collection_desc
content_of content (cons other rest) = some collection_desc

-- The outer loop of `populateData`, from the map `m`.
unfoldable pub populate : Map Bytes Bytes → Nodes → Map Bytes Bytes
populate m nil = m
populate m (cons (text t) rest) = populate m rest
populate m (cons other rest) = populate m rest
populate m (cons (element a name attrs kids) rest) =
    populate (elim (content_of none kids) [ none ↦ m | some content ↦ assign name content m ]) rest

-- `getSingleData`: the content of the first child, if it is a text.
unfoldable pub single_data : Nodes → Bytes
single_data nil = []
single_data (cons (text t) rest) = t
single_data (cons (element a name attrs kids) rest) = []
single_data (cons other rest) = []

module _ (node : Node) (size : Bytes → Result ℤ) (single : Bytes → Result Bytes) where
  pub record Context : Type 0 where
    pub cached_counts : Map Bytes ℤ
    pub cached_queries : Map Bytes Bytes
    pub data_map : Map Bytes Bytes
    pub data_populated : Bool

  unfoldable pub populate_data : Context → Context
  populate_data c =
      if c.data_populated
      then c
      else record c { data_map = populate c.data_map (children node); data_populated = true }

  unfoldable pub get_count : Bytes → Exec Context ℤ
  get_count query c = elim (find query c.cached_counts) [
    | some n ↦ (ok n, c)
    | none ↦
        (do
          result ← lift (size query)
          modify λ c. record c { cached_counts = assign query result c.cached_counts }
          pure result)
          c
  ]

  abbrev pub empty_query {ℓ} : {A : Type ℓ} → Result A
  empty_query = raise (internal_error (bytes "Empty query passed to Context::getData"))

  -- The end of `getData`, for a query that is not in `data`.
  unfoldable pub query_data : Bytes → Exec Context Bytes
  query_data query c = elim (find query c.cached_queries) [
    | some v ↦ (ok v, c)
    | none ↦
        (do
          result ← lift (single query)
          modify λ c. record c { cached_queries = assign query result c.cached_queries }
          pure result)
          c
  ]

  unfoldable pub get_data : Bytes → Exec Context Bytes
  get_data query c =
      let c' = populate_data c in
      ite (Bytes-discrete query []) (empty_query, c')
        (elim (find query c'.data_map) [ some v ↦ (ok v, c') | none ↦ query_data query c' ])

  -- `toVaeDbDataForContext`
  unfoldable pub all_data : Exec Context (Map Bytes Bytes)
  all_data c = let c' = populate_data c in (ok c'.data_map, c')

  -- What the constructor leaves.
  abbrev pub fresh : Context
  fresh = record { cached_counts = []; cached_queries = []; data_map = []; data_populated = false }

  -- The calls of a client, and their answers.
  pub data Call : Type 0 where
    count_call data_call : Bytes → Call
    all_call : Call

  pub data Reply : Type 0 where
    count : Result ℤ → Reply
    datum : Result Bytes → Reply
    all_data_of : Result (Map Bytes Bytes) → Reply

  unfoldable pub answer : Call → Context → Reply × Context
  answer (count_call q) c = let (r, c') = get_count q c in (count r, c')
  answer (data_call q) c = let (r, c') = get_data q c in (datum r, c')
  answer all_call c = let (r, c') = all_data c in (all_data_of r, c')

  unfoldable pub answers : List Call → Context → List Reply
  answers [] c = []
  answers (call ∷ calls) c = let (r, c') = answer call c in r ∷ answers calls c'
