-- ===== src/Response/Filter/Laws.antt =====
-- What a filter finds.
use vae_thrift.Prelude.{
  ℕ, zero, suc, ◌≡◌, refl, ap, sym, ◌∙◌, ltb, if◌then◌else◌, Bool, true, false, ◌&&◌, ◌||◌, List,
  [], ◌∷◌, ◌++◌, arith,
}
use vae_thrift.Prelude.Bytes.{Bytes}
use vae_thrift.Xml.{Node, element, text, other, Nodes, nil, cons, children}
use vae_thrift.Response.Filter.{
  is_empty, contains_caseless, erase_terms, filter_children, filter_match,
}

-- The texts among these nodes, and, where `depth` is zero, among their children.
unfoldable pub texts : ℕ → Nodes → List Bytes
texts depth nil = []
texts zero (cons (element a name attrs kids) rest) = texts 1 kids ++ texts 0 rest
texts (suc depth) (cons (element a name attrs kids) rest) = texts (suc depth) rest
texts depth (cons (text content) rest) = content ∷ texts depth rest
texts depth (cons other rest) = texts depth rest

unfoldable pub any_text : Bytes → List Bytes → Bool
any_text term [] = false
any_text term (content ∷ contents) = contains_caseless term content || any_text term contents

unfoldable pub all_found : List Bytes → List Bytes → Bool
all_found contents [] = true
all_found contents (term ∷ terms) = any_text term contents && all_found contents terms

-- Erasing the terms of one text after the other.
unfoldable erase_all : List Bytes → List Bytes → List Bytes
erase_all [] terms = terms
erase_all (content ∷ contents) terms = erase_all contents (erase_terms content terms)

erase_all-append :
    (xs ys : List Bytes) (terms : List Bytes)
    → erase_all (xs ++ ys) terms ≡ erase_all ys (erase_all xs terms)
unfolding erase_all
erase_all-append [] ys terms = refl
erase_all-append (x ∷ xs) ys terms = erase_all-append xs ys (erase_terms x terms)

filter_children-texts :
    (reentry : ℕ) (nodes : Nodes) (terms : List Bytes)
    → filter_children reentry nodes terms ≡ erase_all (texts reentry nodes) terms
unfolding filter_children texts erase_all
filter_children-texts reentry nil terms = refl
filter_children-texts zero (cons (element a name attrs kids) rest) terms =
    filter_children-texts 0 rest (filter_children 1 kids terms)
    ∙ ap (erase_all (texts 0 rest)) (filter_children-texts 1 kids terms)
    ∙ sym (erase_all-append (texts 1 kids) (texts 0 rest) terms)
filter_children-texts (suc depth) (cons (element a name attrs kids) rest) terms =
    let deep : ltb (suc depth) 1 ≡ false = ground arith in
    ap
      (λ b.
        filter_children (suc depth) rest
          (if b then filter_children (suc (suc depth)) kids terms else terms))
      deep
    ∙ filter_children-texts (suc depth) rest terms
filter_children-texts zero (cons (text content) rest) terms =
    filter_children-texts zero rest (erase_terms content terms)
filter_children-texts (suc depth) (cons (text content) rest) terms =
    filter_children-texts (suc depth) rest (erase_terms content terms)
filter_children-texts zero (cons other rest) terms = filter_children-texts zero rest terms
filter_children-texts (suc depth) (cons other rest) terms =
    filter_children-texts (suc depth) rest terms

all_found-erase_terms :
    (content : Bytes) (contents terms : List Bytes)
    → all_found contents (erase_terms content terms) ≡ all_found (content ∷ contents) terms
unfolding all_found any_text erase_terms
all_found-erase_terms content contents [] = refl
all_found-erase_terms content contents (term ∷ terms) =
    ground (arith, all_found-erase_terms content contents terms)

is_empty-erase_all :
    (contents terms : List Bytes) → is_empty (erase_all contents terms) ≡ all_found contents terms
unfolding erase_all all_found any_text
is_empty-erase_all [] [] = refl
is_empty-erase_all [] (term ∷ terms) = refl
is_empty-erase_all (content ∷ contents) terms =
    is_empty-erase_all contents (erase_terms content terms)
    ∙ all_found-erase_terms content contents terms

-- A node passes a filter exactly if each of its terms stands, whatever the case of its letters, in
-- one of the texts among the children of the node and the children of its children.
pub filter_match_lem :
    (filter_terms : List Bytes) (node : Node)
    → filter_match filter_terms node ≡ all_found (texts 0 (children node)) filter_terms
unfolding filter_match
filter_match_lem filter_terms node =
    ap is_empty (filter_children-texts 0 (children node) filter_terms)
    ∙ is_empty-erase_all (texts 0 (children node)) filter_terms
