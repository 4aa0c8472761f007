-- ===== src/Response/Filter/Examples.antt =====
-- A page with a title, and a paragraph too deep to be looked into.
use vae_thrift.Prelude.{◌≡◌, refl, true, false, [], ◌∷◌}
use vae_thrift.Prelude.Bytes.{bytes}
use vae_thrift.Xml.{Node, element, text, Nodes, nil, cons}
use vae_thrift.Response.Filter.{
  filter_match, filter_children, erase_terms, contains_caseless, starts_caseless,
}
use vae_thrift.Response.Filter.Laws.{texts, all_found, filter_match_lem}

abbrev deep : Node
deep =
    element 3 (bytes "body") []
      (cons (element 4 (bytes "p") [] (cons (text (bytes "hidden")) nil)) nil)

abbrev page_nodes : Nodes
page_nodes =
    cons (element 2 (bytes "title") [] (cons (text (bytes "A Blog")) nil))
      (cons (text (bytes "news")) (cons deep nil))

abbrev page : Node
page = element 1 (bytes "page") [] page_nodes

found : filter_match (bytes "blog" ∷ bytes "NEWS" ∷ []) page ≡ true
unfolding filter_match filter_children erase_terms contains_caseless starts_caseless
found = refl

too_deep : filter_match (bytes "hidden" ∷ []) page ≡ false
unfolding filter_match filter_children erase_terms contains_caseless starts_caseless
too_deep = refl

filter_match_lem_example :
    filter_match (bytes "blog" ∷ bytes "NEWS" ∷ []) page
    ≡ all_found (texts 0 page_nodes) (bytes "blog" ∷ bytes "NEWS" ∷ [])
filter_match_lem_example = filter_match_lem (bytes "blog" ∷ bytes "NEWS" ∷ []) page
