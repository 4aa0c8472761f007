-- ===== src/Query/Examples.antt =====
-- A site with a page `news` and a page `news/2012` below it.
use vae_thrift.Prelude.{
  ◌≡◌, refl, ◌==◌, if◌then◌else◌, Option, none, some, List, [], ◌∷◌, ◌++◌, length, ℕ_discrete,
}
use vae_thrift.Prelude.Bytes.{Bytes, bytes}
use vae_thrift.Prelude.Map.{find}
use vae_thrift.Prelude.Eq.{Bytes-discrete, bytes_eq}
use vae_thrift.Query.Rewrite.{Pcre}
use vae_thrift.Query.{Engine, nodeset, go_on, permalink_stage, permalink_loop}
use vae_thrift.Query.Laws.{Resolved, permalink_stage-Resolved}

unfoldable pub split_slash : Bytes → List Bytes
split_slash [] = [] ∷ []
split_slash (c ∷ s) =
    let rest = split_slash s in
    if c == 47
    then [] ∷ rest
    else elim rest [ [] ↦ (c ∷ []) ∷ [] | part ∷ parts ↦ (c ∷ part) ∷ parts ]

unfoldable pub join_slash : List Bytes → Bytes
join_slash [] = []
join_slash (part ∷ []) = part
join_slash (part ∷ more ∷ parts) = part ++ (bytes "/" ++ join_slash (more ∷ parts))

unfoldable pub strip : Bytes → Bytes → Option Bytes
strip [] s = some s
strip (c ∷ p) [] = none
strip (c ∷ p) (d ∷ s) = let rest = strip p s in if c == d then rest else none

abbrev pub pcre : Pcre
pcre = record {
  replace = λ pattern' rewriting s. none;
  full_match_1 = λ pattern' s. strip (bytes "permalink/") s;
  full_match_2 = λ pattern' s. none;
  split = λ separator s. split_slash s;
  join = λ separator parts. join_slash parts;
}

abbrev pub engine : Engine
engine = record {
  pcre = pcre;
  nodes = [];
  permalinks = (bytes "news", 1) ∷ (bytes "news/2012", 2) ∷ [];
  context_of = λ node. some node;
  node_name = λ node. bytes "page";
  root_node = some 0;
  eval = λ node q. nodeset [];
}

longest :
    permalink_stage engine none (bytes "permalink/news/2012/title") ≡ go_on (some 2) (bytes "title")
unfolding permalink_stage permalink_loop split_slash join_slash strip find Bytes-discrete ℕ_discrete
longest = refl

matched :
    strip (bytes "permalink/") (bytes "permalink/news/2012/title") ≡ some (bytes "news/2012/title")
unfolding strip
matched = refl

permalink_stage-Resolved_example :
    let parts = split_slash (bytes "news/2012/title") in
    Resolved engine parts
      (length parts)
      (permalink_stage engine none (bytes "permalink/news/2012/title"))
permalink_stage-Resolved_example =
    permalink_stage-Resolved engine none (bytes "permalink/news/2012/title")
      (bytes "news/2012/title") matched
