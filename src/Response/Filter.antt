-- ===== src/Response/Filter.antt =====
-- `filterMatch` and `filterMatchRecursive` in cpp/response.cpp: whether the texts of a node have
-- every term of a filter.
pub mod Laws
mod Examples
use vae_thrift.Prelude.{
  ℕ, zero, suc, ◌+◌, ◌==◌, leb, ltb, if◌then◌else◌, Bool, true, false, not, ◌&&◌, ◌||◌, List, [],
  ◌∷◌,
}
use vae_thrift.Prelude.Bytes.{Bytes}
use vae_thrift.Xml.{Node, element, text, other, Nodes, nil, cons, children}

abbrev lower : ℕ → ℕ
lower c = if leb 65 c && leb c 90 then c + 32 else c

unfoldable pub starts_caseless : Bytes → Bytes → Bool
starts_caseless [] s = true
starts_caseless (c ∷ p) [] = false
starts_caseless (c ∷ p) (d ∷ s) = lower c == lower d && starts_caseless p s

-- `strcasestr(s, term)`
unfoldable pub contains_caseless : Bytes → Bytes → Bool
contains_caseless term [] = starts_caseless term []
contains_caseless term (c ∷ s) = starts_caseless term (c ∷ s) || contains_caseless term s

-- The loop over the terms that remain: those that a text has are erased.
unfoldable pub erase_terms : Bytes → List Bytes → List Bytes
erase_terms content [] = []
erase_terms content (term ∷ terms) =
    let rest = erase_terms content terms in
    if contains_caseless term content then rest else term ∷ rest

-- `filterMatchRecursive` on the children of a node, with the terms that remain.
unfoldable pub filter_children : ℕ → Nodes → List Bytes → List Bytes
filter_children reentry nil terms = terms
filter_children reentry (cons (element a name attrs kids) rest) terms =
    let below = filter_children (suc reentry) kids terms in
    filter_children reentry rest (if ltb reentry 1 then below else terms)
filter_children reentry (cons (text content) rest) terms =
    filter_children reentry rest (erase_terms content terms)
filter_children reentry (cons other rest) terms = filter_children reentry rest terms

abbrev pub is_empty : List Bytes → Bool
is_empty [] = true
is_empty (term ∷ terms) = false

unfoldable pub filter_match : List Bytes → Node → Bool
filter_match filter_terms node = is_empty (filter_children 0 (children node) filter_terms)
