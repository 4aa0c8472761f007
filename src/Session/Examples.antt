-- ===== src/Session/Examples.antt =====
-- Sessions whose responses are the texts of their queries.
use vae_thrift.Prelude.{ℕ, ◌≡◌, refl, some, [], ◌∷◌, get_elem?, ℕ_discrete, arith, ◌⊎◌, ◌<◌, suc}
use vae_thrift.Prelude.Int.{◌-ℤ◌, pos, neg_part, pos_part}
use vae_thrift.Prelude.Bytes.{Bytes, bytes}
use vae_thrift.Prelude.Eq.{ℤ-discrete}
use vae_thrift.Exec.{Result, ok, undefined}
use vae_thrift.Session.{
  Responses, Session, get, parent_of, response_at, invalid_response_id, to_int32, to_size_t, at,
}
use vae_thrift.Session.Laws.{response_at_cases}

abbrev pub echo : {Site : Type 0} → Responses Site
echo = record {
  Response = Bytes;
  Contexts = Bytes;
  CreateInfos = Bytes;
  DataContexts = Bytes;
  Structures = Bytes;
  new_response = λ site parent query options. ok query;
  create_infos = λ site parent query. ok query;
  write_contexts = λ response. response;
  write_data = λ response. response;
  write_structures = λ response. response;
}

abbrev pub one_query : Session {Site = ℕ} echo
one_query = record { created_at = 5; responses = bytes "/posts" ∷ []; site = 7 }

abbrev two_queries : Session {Site = ℕ} echo
two_queries = record one_query { responses = bytes "/posts" ∷ bytes "title" ∷ [] }

second_query :
    get echo one_query (pos 1) (bytes "title") []
    ≡ ok (record { id = pos 2; contexts = bytes "title" }, two_queries)
unfolding get parent_of response_at to_int32 to_size_t at ◌-ℤ◌ ℤ-discrete ℕ_discrete
second_query = refl

abbrev title : Result Bytes
title = ok (bytes "title")

response_at_cases_example :
    ((i : ℕ) × (a : Bytes) × (pos 2 ≡ pos (suc i))
      × (get_elem? two_queries.responses i ≡ some a)
      × (response_at echo two_queries (pos 2) ≡ ok a))
    ⊎ ((pos 2 ≡ pos 0) × (response_at echo two_queries (pos 2) ≡ undefined))
    ⊎ (((2 < pos_part (pos 2)) ⊎ (0 < neg_part (pos 2)))
        × (response_at echo two_queries (pos 2) ≡ invalid_response_id {Site = ℕ} echo))
response_at_cases_example = response_at_cases echo two_queries (pos 2) (omega arith) (omega arith)

zeroth : response_at echo two_queries (pos 0) ≡ undefined
unfolding response_at to_size_t at ◌-ℤ◌
zeroth = refl
