-- ===== src/Load/Examples.antt =====
-- A feed with one node of each kind.
use vae_thrift.Prelude.{ℕ, ◌+◌, ◌≡◌, refl, ite, false, some, [], ◌∷◌, ℕ_discrete}
use vae_thrift.Prelude.Int.{pos}
use vae_thrift.Prelude.Bytes.{Bytes, bytes}
use vae_thrift.Prelude.Atoi.{atoi}
use vae_thrift.Prelude.Eq.{Bytes-discrete}
use vae_thrift.Exec.{ok}
use vae_thrift.Query.{Evaluated, nodeset, run_raw_query}
use vae_thrift.Query.Examples.{engine}
use vae_thrift.Load.{Loading, Loaded, parse, only_node, query_node, load_xml_doc}

abbrev node_of : Bytes → Evaluated
node_of q =
    ite (Bytes-discrete q (bytes "/website/content")) (nodeset (1 ∷ []))
      (ite (Bytes-discrete q (bytes "/website/design")) (nodeset (2 ∷ [])) (nodeset (3 ∷ [])))

abbrev library : Loading
library = record {
  Doc = Bytes;
  World = ℕ;
  parse_file = λ name. some name;
  read_memory = λ text name. some text;
  engine = λ doc w root. record engine { root_node = root; eval = λ node q. node_of q };
  single_data = λ doc w node. bytes "17";
  strtol = atoi;
  make_contexts = λ doc root w. (ok tt, w + 1);
  initialize_associations = λ doc w. (ok tt, w + 1);
}

abbrev site : Loaded library
site = record {
  doc = bytes "feed";
  subdomain = bytes "blog";
  root_node = 1;
  root_design_node = 2;
  generation = pos 17;
}

loads : load_xml_doc library false (bytes "blog") (bytes "feed") 0 ≡ (ok site, 2)
unfolding load_xml_doc parse query_node only_node run_raw_query atoi Bytes-discrete ℕ_discrete
loads = refl
