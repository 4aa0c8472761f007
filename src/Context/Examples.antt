-- ===== src/Context/Examples.antt =====
-- A post with a title, a body in two parts and a list of tags.
use vae_thrift.Prelude.{◌≡◌, refl, ite, List, [], ◌∷◌, ℕ_discrete}
use vae_thrift.Prelude.Int.{ℤ, pos}
use vae_thrift.Prelude.Bytes.{Bytes, bytes}
use vae_thrift.Prelude.Eq.{Bytes-discrete, bytes_eq}
use vae_thrift.Prelude.Map.{find, assign}
use vae_thrift.Exec.{Result, ok, raise, query_error}
use vae_thrift.Xml.{Node, element, text, Nodes, nil, cons}
use vae_thrift.Context.{
  content_of, populate, populate_data, get_data, fresh, Call, count_call, data_call, all_call,
  datum, answer, answers,
}
use vae_thrift.Context.Laws.{replies, answers-replies}

abbrev leaf : Bytes → Nodes → Node
leaf name kids = element 0 name [] kids

abbrev post : Node
post = leaf (bytes "post") (
    cons (text (bytes "\n")) (
      cons (leaf (bytes "title") (cons (text (bytes "Hello")) nil))
        (cons (leaf (bytes "tags") (cons (leaf (bytes "tag") nil) nil)) nil)))

-- Every query finds two nodes, but for one that XPath does not understand.
abbrev two_found : Bytes → Result ℤ
two_found q = ite (Bytes-discrete q (bytes "]")) (raise (query_error (bytes "bad"))) (ok (pos 2))

abbrev draft_found : Bytes → Result Bytes
draft_found q = ok (bytes "draft")

abbrev calls : List (Call post two_found draft_found)
calls =
    data_call (bytes "title")
    ∷ count_call (bytes "tags/tag")
    ∷ data_call (bytes "tags")
    ∷ data_call (bytes "../state")
    ∷ data_call []
    ∷ count_call (bytes "]")
    ∷ all_call
    ∷ []

title_answered :
    answers post two_found draft_found
      (data_call (bytes "title") ∷ [])
      (fresh post two_found draft_found)
    ≡ datum (ok (bytes "Hello")) ∷ []
unfolding answers answer get_data populate_data populate content_of find assign Bytes-discrete
    ℕ_discrete
title_answered = refl

answers-replies_example :
    answers post two_found draft_found calls (fresh post two_found draft_found)
    ≡ replies post two_found draft_found calls
answers-replies_example = answers-replies post two_found draft_found calls
