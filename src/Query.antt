-- ===== src/Query.antt =====
-- cpp/query.cpp: a query of a client becomes an XPath expression, and is evaluated. The regular
-- expressions are pcrecpp's, the splitting and joining boost's and the evaluation libxml2's: they
-- are the interface `Engine`. A context is named by its node.
pub mod Rewrite
pub mod Design
pub mod Laws
pub mod Examples
use vae_thrift.Prelude.{
  ℕ, zero, suc, ◌+◌, ◌==◌, if◌then◌else◌, Bool, true, false, not, ◌&&◌, ◌||◌, Option, none, some,
  List, [], ◌∷◌, ◌++◌, length, take, drop, ite,
}
use vae_thrift.Prelude.Int.{ℤ}
use vae_thrift.Prelude.Bytes.{Bytes, bytes}
use vae_thrift.Prelude.Atoi.{atoi}
use vae_thrift.Prelude.Eq.{Bytes-discrete, bytes_eq, int_eq}
use vae_thrift.Prelude.Map.{Map, find}
use vae_thrift.Exec.{Result, ok, raise, undefined, diverges, and_then, internal_error, query_error}
use vae_thrift.Query.Rewrite.{Pcre, rewrite, same_caseless}

-- What `xmlXPathEvalExpression` gives: null, an object of another type, or the nodes found.
pub data Evaluated : Type 0 where
  null : Evaluated
  not_a_nodeset : Evaluated
  nodeset : List ℕ → Evaluated

-- The site that is queried: its nodes by id and by permalink, the `_private` of a node, its name,
-- its root node, and the evaluation of an expression at a node.
pub record Engine : Type 0 where
  pub pcre : Pcre
  pub nodes : Map ℤ ℕ
  pub permalinks : Map Bytes ℕ
  pub context_of : ℕ → Option ℕ
  pub node_name : ℕ → Bytes
  pub root_node : Option ℕ
  pub eval : Option ℕ → Bytes → Evaluated

-- How far the constructor has come: it has returned with these nodes, or it goes on with a context
-- and a query.
pub data Stage : Type 0 where
  returned : List ℕ → Stage
  go_on : Option ℕ → Bytes → Stage

module _ (e : Engine) where
  open e use {pcre, nodes, permalinks, context_of, node_name, root_node, eval}

  -- `result`
  abbrev pub result : Option ℕ → List ℕ
  result none = []
  result (some node) = node ∷ []

  -- `find`
  unfoldable pub find_id : ℤ → List ℕ
  find_id id = result (find id nodes)

  abbrev pub is_root : Option ℕ → ℕ → Bool
  is_root none node = false
  is_root (some root) node = node == root

  -- `runRawQuery`
  unfoldable pub run_raw_query : Option ℕ → Bytes → Bytes → Result (List ℕ)
  run_raw_query node q display_query = elim (eval node q) [
    | null ↦ raise (
        query_error
          (bytes "could not evaluate XPath expression: '" ++ (display_query ++ bytes "'")))
    | not_a_nodeset ↦
        raise (internal_error (bytes "libxml2 returned something other than a nodeset?!"))
    | nodeset found ↦ elim found [
      | [] ↦ ok []
      | n ∷ ns ↦ if is_root root_node n then ok [] else ok (n ∷ ns)
    ]
  ]

  -- `runQuery`
  unfoldable pub run_query : Option ℕ → Bytes → Bytes → Result (List ℕ)
  run_query context q display_query =
      run_raw_query (elim context [ none ↦ root_node | some node ↦ some node ]) q display_query

  -- The loop over the parts of a permalink, from `i` parts down.
  unfoldable pub permalink_loop : List Bytes → ℕ → Stage
  permalink_loop parts zero = returned []
  permalink_loop parts (suc i) =
      let fewer = permalink_loop parts i in
      elim (find (pcre.join (bytes "/") (take (suc i) parts)) permalinks) [
        | none ↦ fewer
        | some node ↦
            if suc i == length parts
            then returned (node ∷ [])
            else go_on (context_of node) (pcre.join (bytes "/") (drop (suc i) parts))
      ]

  -- A leading slash starts from the root.
  unfoldable pub strip_slash : Option ℕ → Bytes → Option ℕ × Bytes
  strip_slash context q = elim (pcre.replace (bytes "^/") [] q) [
    | none ↦ (context, q)
    | some q' ↦ (none, q')
  ]

  unfoldable pub permalink_stage : Option ℕ → Bytes → Stage
  permalink_stage context q = elim (pcre.full_match_1 (bytes "permalink/(.*)") q) [
    | none ↦ go_on context q
    | some permalink ↦
        let parts = pcre.split (bytes "/") permalink in permalink_loop parts (length parts)
  ]

  -- The test for a number in front. The path behind it starts with a slash.
  unfoldable pub id_stage : Option ℕ → Bytes → Stage
  id_stage context q = elim (pcre.full_match_2 (bytes "([0-9]+)(/.*|)") q) [
    | none ↦ go_on context q
    | some (id, path) ↦
        let found = find_id (atoi id) in
        elim found [
          | [] ↦ returned []
          | node ∷ more ↦ elim path [
            | [] ↦ returned (node ∷ more)
            | slash ∷ q' ↦ go_on (context_of node) q'
          ]
        ]
  ]

  -- `prev()` or `next()`, with the axis that stands for it.
  unfoldable pub sibling : Bytes → Bytes → Bytes → Option ℕ → Bytes → Result Bytes
  sibling call axis message context q =
      if same_caseless call q
      then elim context [
        | none ↦ raise (query_error message)
        | some node ↦ ok (axis ++ (node_name node ++ bytes "[1]"))
      ]
      else ok q

  -- The rest of the constructor.
  unfoldable pub evaluate : ℕ → Bytes → Option ℕ → Bytes → Result (List ℕ)
  evaluate fuel display_query context q =
      and_then
        (sibling (bytes "prev()") (bytes "preceding-sibling::")
          (bytes "You cannot use PREV() outside of a context.") context q)
        λ q₁.
          and_then
            (sibling (bytes "next()") (bytes "following-sibling::")
              (bytes "You cannot use NEXT() outside of a context.") context q₁)
            λ q₂. and_then (rewrite pcre fuel q₂) λ q₃. run_query context q₃ display_query

  -- The constructor `Query(site, context, q)`.
  unfoldable pub new_query : ℕ → Option ℕ → Bytes → Result (List ℕ)
  new_query fuel context q =
      let (context₁, q₁) = strip_slash context q in
      elim (permalink_stage context₁ q₁) [
        | returned found ↦ ok found
        | go_on context₂ q₂ ↦ elim (id_stage context₂ q₂) [
          | returned found ↦ ok found
          | go_on context₃ q₃ ↦ evaluate fuel q context₃ q₃
        ]
      ]
