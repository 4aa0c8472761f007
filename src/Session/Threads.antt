-- ===== src/Session/Threads.antt =====
-- Several threads with calls on one session, in cpp/session.cpp: the handler gives up `sessionsMutex`
-- before it calls the session, and the session has no mutex of its own. An access to the vector
-- `responses` is one step here.
pub mod Laws
pub mod Collide
mod Examples
use vae_thrift.Prelude.{
  ℕ, ◌+◌, ◌≡◌, ◌==◌, if◌then◌else◌, Option, none, some, List, [], ◌∷◌, ◌++◌, length,
}
use vae_thrift.Prelude.Int.{ℤ}
use vae_thrift.Prelude.Bytes.{Bytes}
use vae_thrift.Prelude.Map.{Map}
use vae_thrift.Exec.{Result, ok, raise, undefined, diverges, map_result}
use vae_thrift.Session.{Responses, Session, Answer, to_int32, response_at, parent_of}

module _ {Site : Type 0} (r : Responses Site) where
  open r use {Response, new_response, write_contexts}

  -- Where a thread stands in `get`: it reads the parent, makes the response, takes its number, and puts
  -- it into `responses`. `reading` is a call of `data` or `structure`, which finds its response.
  pub data Thread : Type 0 where
    idle : Thread
    getting : ℤ → Bytes → Map Bytes Bytes → Thread
    making : Option Response → Bytes → Map Bytes Bytes → Thread
    numbering : Response → Thread
    pushing : Response → Answer r → Thread
    answered : Result (Answer r) → Thread
    reading : ℤ → Thread
    found : Result Response → Thread

  pub record Shared : Type 0 where
    pub session : Session r
    pub threads : ℕ → Thread

  abbrev pub move : ℕ → Thread → Shared → Shared
  move t th s = record s { threads = λ u. if t == u then th else s.threads u }

  -- The thread goes on with a value, or its call ends with the exception.
  unfoldable pub goes_on : {A : Type 0} → Result A → (A → Thread) → Thread
  goes_on (ok a) f = f a
  goes_on (raise e) f = answered (raise e)
  goes_on undefined f = answered undefined
  goes_on diverges f = answered diverges

  abbrev pub numbered : Session r → Response → Answer r
  numbered session response = record {
    id = to_int32 (length session.responses + 1);
    contexts = write_contexts response;
  }

  unfoldable pub advance : ℕ → Thread → Shared → Option Shared
  advance t idle s = none
  advance t (getting response_id query options) s = some (
      move t (goes_on (parent_of r s.session response_id) (λ parent. making parent query options))
        s)
  advance t (making parent query options) s =
      some (move t (goes_on (new_response s.session.site parent query options) numbering) s)
  advance t (numbering response) s =
      some (move t (pushing response (numbered s.session response)) s)
  advance t (pushing response answer) s = some (
      move t (answered (ok answer)) (record s {
        session = record (s.session) { responses = s.session.responses ++ (response ∷ []) };
      }))
  advance t (answered a) s = none
  advance t (reading response_id) s = some (move t (found (response_at r s.session response_id)) s)
  advance t (found a) s = none

  pub data IsCall : Thread → Type 0 where
    get_of :
        (response_id : ℤ) (query : Bytes) (options : Map Bytes Bytes)
        → IsCall (getting response_id query options)
    read_of : (response_id : ℤ) → IsCall (reading response_id)

  pub data Step (s : Shared) : Shared → Type 0 where
    goes : (t : ℕ) (s' : Shared) → advance t (s.threads t) s ≡ some s' → Step s s'
    call : (t : ℕ) (th : Thread) → s.threads t ≡ idle → IsCall th → Step s (move t th s)

  pub data Reach (s : Shared) : Shared → Type 0 where
    here : Reach s s
    next : {t u : Shared} → Reach s t → Step t u → Reach s u
