-- ===== src/Session.antt =====
-- cpp/session.h and cpp/session.cpp: a session keeps the responses to its queries, and a client names
-- one by its number, from 1. `Response` and its writers are the interface `Responses`.
pub mod Laws
pub mod Threads
pub mod Served
pub mod Examples
use vae_thrift.Prelude.{
  ℕ, zero, suc, ◌+◌, ◌-◌, ◌%◌, ◌^◌, ltb, leb, if◌then◌else◌, Option, none, some, List, [], ◌∷◌,
  ◌++◌, length, get_elem?, ite,
}
use vae_thrift.Prelude.Int.{ℤ, pos, negsuc, ◌-ℤ◌, ℤ}
use vae_thrift.Prelude.Bytes.{Bytes, bytes}
use vae_thrift.Prelude.Map.{Map}
use vae_thrift.Prelude.Eq.{ℤ-discrete}
use vae_thrift.Exec.{Result, and_then, map_result, ok, raise, undefined, diverges, internal_error}

-- What a session uses of `Response`, over the sites `Site`: its two constructors, and what the four
-- writers put into an answer. A `none` parent is the null `shared_ptr`.
pub record Responses (Site : Type 0) : Type 1 where
  pub Response : Type 0
  pub Contexts : Type 0
  pub CreateInfos : Type 0
  pub DataContexts : Type 0
  pub Structures : Type 0
  pub new_response : Site → Option Response → Bytes → Map Bytes Bytes → Result Response
  pub create_infos : Site → Option Response → Bytes → Result CreateInfos
  pub write_contexts : Response → Contexts
  pub write_data : Response → DataContexts
  pub write_structures : Response → Structures

-- A conversion of `int32_t` to `size_t`, and back.
unfoldable pub to_size_t : ℤ → ℕ
to_size_t (pos n) = n
to_size_t (negsuc n) = 2 ^ 64 - suc n

unfoldable pub to_int32 : ℕ → ℤ
to_int32 n = let w = n % 2 ^ 32 in if ltb w (2 ^ 31) then pos w else negsuc (2 ^ 32 - suc w)

-- `v[i]`, which is undefined outside the vector.
unfoldable pub at {ℓ} : {A : Type ℓ} → List A → ℕ → Result A
at xs i = elim (get_elem? xs i) [ none ↦ undefined | some a ↦ ok a ]

module _ {Site : Type 0} (r : Responses Site) where
  open r use {
    Response, Contexts, CreateInfos, DataContexts, Structures, new_response, create_infos,
    write_contexts, write_data, write_structures,
  }

  pub record Session : Type 0 where
    pub created_at : ℕ
    pub responses : List Response
    pub site : Site

  -- VaeDbResponse
  pub record Answer : Type 0 where
    pub id : ℤ
    pub contexts : Contexts

  abbrev pub invalid_response_id {ℓ} : {A : Type ℓ} → Result A
  invalid_response_id = raise (internal_error (bytes "Invalid responseId"))

  -- The constructor, at the time `now`.
  unfoldable pub new_session : Site → ℕ → Session
  new_session s now = record { created_at = now; responses = []; site = s }

  -- `responses[responseId-1]` behind the test `responses.size() >= responseId`
  unfoldable pub response_at : Session → ℤ → Result Response
  response_at s response_id =
      if leb (to_size_t response_id) (length s.responses)
      then at s.responses (to_size_t (response_id -ℤ pos 1))
      else invalid_response_id

  -- The parent of a new response: 0 stands for none.
  unfoldable pub parent_of : Session → ℤ → Result (Option Response)
  parent_of s response_id =
      ite (ℤ-discrete response_id (pos 0)) (ok none) (map_result some (response_at s response_id))

  unfoldable pub create_info : Session → ℤ → Bytes → Result CreateInfos
  create_info s response_id query =
      and_then (parent_of s response_id) (λ parent. create_infos s.site parent query)

  -- `Session::data` and `Session::structure`
  unfoldable pub data_of : Session → ℤ → Result DataContexts
  data_of s response_id = map_result write_data (response_at s response_id)

  unfoldable pub structure : Session → ℤ → Result Structures
  structure s response_id = map_result write_structures (response_at s response_id)

  unfoldable pub get : Session → ℤ → Bytes → Map Bytes Bytes → Result (Answer × Session)
  get s response_id query options = and_then (parent_of s response_id) λ parent.
      map_result
        (λ response. (
          record { id = to_int32 (length s.responses + 1); contexts = write_contexts response },
          record s { responses = s.responses ++ (response ∷ []) },
        ))
        (new_response s.site parent query options)
