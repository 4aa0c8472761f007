-- ===== src/Handler/Sessions.antt =====
-- The calls on sessions, the reset of a site, and the reaper of cpp/reaper.cpp.
pub mod Laws
pub mod Reaper
pub mod Shared
pub mod Calls
use vae_thrift.Prelude.{
  ℕ, zero, suc, ◌+◌, if◌then◌else◌, Bool, true, false, Option, none, some, List, [], ◌∷◌, ◌++◌, ite,
}
use vae_thrift.Prelude.Int.{ℤ, pos}
use vae_thrift.Prelude.Bytes.{Bytes, bytes}
use vae_thrift.Prelude.Eq.{int_eq}
use vae_thrift.Prelude.Map.{Map, find, assign, erase}
use vae_thrift.Exec.{Result, ok, raise, Exec, pure, lift, modify, gets, ◌>>=◌, ◌>>◌, diverges}
use vae_thrift.Site.{Feeds, Site}
use vae_thrift.Session.{
  Responses, Session, Answer, new_session, create_info, data_of, structure, get,
}
use vae_thrift.QueryLog.Entry.{Value, string, i32, bool, string_map, newline}
use vae_thrift.Handler.State.{Backend, State, outside, note_subdomain, logged, with_session}
use vae_thrift.Handler.Sites.{get_site, reset_sites}

module _ (b : Backend) (test_mode : Bool) where
  -- VaeDbOpenSessionResponse
  pub record Opened : Type 0 where
    pub session_id : ℤ
    pub generation : ℤ

  -- `while (sessions.count(sessionId)) sessionId = rand();`, in `fuel` rounds at most.
  unfoldable pub unused_id : ℕ → ℤ → Exec (State b) ℤ
  unused_id zero id s = elim (find id s.sessions) [
    | none ↦ (ok id, s)
    | some session ↦ (diverges, s)
  ]
  unused_id (suc fuel) id s =
      let (next, w) = b.rand s.world in
      let rest = unused_id fuel next (record s { world = w }) in
      elim (find id s.sessions) [ none ↦ (ok id, s) | some session ↦ rest ]

  -- The rest of `openSession`, once it has the site and the number.
  unfoldable pub record_session : Site b.feeds.Doc → ℤ → Exec (State b) Opened
  record_session site id = do
    modify λ s. record s {
      sessions = assign id (new_session b.responses site (b.time s.world)) s.sessions;
    }
    note_subdomain b site.subdomain
    pure (record { session_id = id; generation = site.generation })

  -- The body of `openSession`.
  unfoldable pub open_body : ℕ → Bytes → Bytes → Bool → ℤ → Exec (State b) Opened
  open_body fuel subdomain secret_key staging suggested = do
    site ← get_site b test_mode subdomain secret_key staging
    id ← unused_id fuel suggested
    record_session site id

  unfoldable pub open_session : ℕ → Bytes → Bytes → Bool → ℤ → Exec (State b) Opened
  open_session fuel subdomain secret_key staging suggested =
      logged b fuel (bytes "openSession")
        (string subdomain ∷ string secret_key ∷ bool staging ∷ i32 suggested ∷ newline ∷ [])
        (open_body fuel subdomain secret_key staging suggested)

  -- `closeSession`: the secret key goes to the log, and nothing else is done with it.
  unfoldable pub close_session : ℕ → ℤ → Bytes → Exec (State b) (Unit {0})
  close_session fuel id secret_key =
      logged b fuel (bytes "closeSession") (i32 id ∷ string secret_key ∷ newline ∷ [])
        (modify λ s. record s { sessions = erase id s.sessions })

  -- What `createInfo`, `data`, `get` and `structure` do with their session. They leave the answer
  -- empty, which is `none` here, for a number that names no session.
  abbrev pub in_session {ℓ} :
      {A : Type ℓ} → ℤ → (Session b.responses → Exec (State b) A) → Exec (State b) (Option A)
  in_session id body =
      with_session b id none
        λ session. do note_subdomain b session.site.subdomain; a ← body session; pure (some a)

  unfoldable pub create_info_call :
      ℕ → ℤ → ℤ → Bytes → Exec (State b) (Option b.responses.CreateInfos)
  create_info_call fuel id response_id query =
      logged b fuel (bytes "createInfo") (i32 id ∷ i32 response_id ∷ string query ∷ newline ∷ [])
        (in_session id λ session. lift (create_info b.responses session response_id query))

  unfoldable pub data_call : ℕ → ℤ → ℤ → Exec (State b) (Option b.responses.DataContexts)
  data_call fuel id response_id =
      logged b fuel (bytes "data") (i32 id ∷ i32 response_id ∷ newline ∷ [])
        (in_session id λ session. lift (data_of b.responses session response_id))

  unfoldable pub structure_call : ℕ → ℤ → ℤ → Exec (State b) (Option b.responses.Structures)
  structure_call fuel id response_id =
      logged b fuel (bytes "structure") (i32 id ∷ i32 response_id ∷ newline ∷ [])
        (in_session id λ session. lift (structure b.responses session response_id))

  -- The session is shared with the map, so what `Session::get` adds to it is written there.
  unfoldable pub get_body :
      ℤ → ℤ → Bytes → Map Bytes Bytes → Exec (State b) (Option (Answer b.responses))
  get_body id response_id query options = in_session id λ session. do
    got ← lift (get b.responses session response_id query options)
    modify λ s. record s { sessions = assign id got.1 s.sessions }
    pure got.0

  unfoldable pub get_call :
      ℕ → ℤ → ℤ → Bytes → Map Bytes Bytes → Exec (State b) (Option (Answer b.responses))
  get_call fuel id response_id query options =
      logged b fuel (bytes "get")
        (i32 id ∷ i32 response_id ∷ string query ∷ string_map options ∷ newline ∷ [])
        (get_body id response_id query options)

  unfoldable pub ping : ℕ → Exec (State b) ℤ
  ping fuel = logged b fuel (bytes "ping") (newline ∷ []) (pure (pos 0))

  unfoldable pub reset_site : ℕ → Bytes → Bytes → Exec (State b) (Unit {0})
  reset_site fuel subdomain secret_key =
      logged b fuel (bytes "resetSite") (string subdomain ∷ string secret_key ∷ newline ∷ [])
        (reset_sites b test_mode subdomain secret_key false)
