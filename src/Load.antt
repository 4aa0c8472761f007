-- ===== src/Load.antt =====
-- `loadXmlDoc` of cpp/site.cpp, from the text of a feed to its generation. What its two loops do with
-- the nodes is in Build and Association; here they are steps of the interface `Loading`, as are
-- libxml2's parsers.
mod Examples
use vae_thrift.Prelude.{
  ℕ, ◌==◌, if◌then◌else◌, Bool, true, false, Option, none, some, List, [], ◌∷◌, ◌++◌,
}
use vae_thrift.Prelude.Int.{ℤ}
use vae_thrift.Prelude.Bytes.{Bytes, bytes}
use vae_thrift.Exec.{
  Result, ok, raise, and_then, internal_error, Exec, pure, lift, modify, gets, ◌>>=◌, ◌>>◌,
}
use vae_thrift.Query.{Engine, run_raw_query}

-- `xmlParseFile`, `xmlReadMemory`, what a query sees of a document with a root node, the text in a
-- node, `strtol` with 10 as `int32_t`, and the loops over the contexts and the associations.
pub record Loading : Type 1 where
  pub Doc : Type 0
  pub World : Type 0
  pub parse_file : Bytes → Option Doc
  pub read_memory : Bytes → Bytes → Option Doc
  pub engine : Doc → World → Option ℕ → Engine
  pub single_data : Doc → World → ℕ → Bytes
  pub strtol : Bytes → ℤ
  pub make_contexts : Doc → ℕ → Exec World (Unit {0})
  pub initialize_associations : Doc → Exec World (Unit {0})

module _ (l : Loading) where
  open l use {
    Doc, World, parse_file, read_memory, engine, single_data, strtol, make_contexts,
    initialize_associations,
  }

  -- What the function leaves in the site.
  pub record Loaded : Type 0 where
    pub doc : Doc
    pub subdomain : Bytes
    pub root_node : ℕ
    pub root_design_node : ℕ
    pub generation : ℤ

  unfoldable pub parse : Bool → Bytes → Bytes → Result (Doc × Bytes)
  parse test_mode subdomain rawxml =
      let parsed = if test_mode then parse_file subdomain else read_memory rawxml subdomain in
      elim parsed [
        | none ↦ raise (internal_error (bytes "Could not open/parse XML file"))
        | some doc ↦ ok (doc, if test_mode then bytes "local" else subdomain)
      ]

  -- The one node that a query must find.
  unfoldable pub only_node : Bytes → List ℕ → Result ℕ
  only_node message [] = raise (internal_error message)
  only_node message (node ∷ []) = ok node
  only_node message (node ∷ more ∷ nodes) = raise (internal_error message)

  unfoldable pub query_node : Doc → Option ℕ → Bytes → Bytes → Bytes → Exec World ℕ
  query_node doc root q display_query message = do
    found ← λ w. (run_raw_query (engine doc w root) none q display_query, w)
    lift (only_node message found)

  unfoldable pub load_xml_doc : Bool → Bytes → Bytes → Exec World Loaded
  load_xml_doc test_mode subdomain rawxml = do
    parsed ← lift (parse test_mode subdomain rawxml)
    root ←
        query_node parsed.0 none (bytes "/website/content") (bytes "website root node")
          (bytes "Could not find root content node in XML file")
    design ←
        query_node parsed.0 (some root) (bytes "/website/design") (bytes "website design node")
          (bytes "Could not find root design node in XML file")
    make_contexts parsed.0 root
    initialize_associations parsed.0
    node ←
        query_node parsed.0 (some root) (bytes "/website/generation")
          (bytes "website generation node")
          (bytes "Could not find feed generation node in XML file")
    text ← gets (λ w. single_data parsed.0 w node)
    pure (record {
      doc = parsed.0;
      subdomain = parsed.1;
      root_node = root;
      root_design_node = design;
      generation = strtol text;
    })
