-- ===== src/Handler/Sessions/Shared.antt =====
-- The sessions as several threads share them, in cpp/vae_db_handler.cpp and cpp/reaper.cpp. The map
-- holds a `shared_ptr` to each, and a call copies it under `sessionsMutex`, gives up the mutex and
-- works with its copy, while other calls close sessions and the reaper reaps them. What is done under
-- the mutex is one step. A `shared_ptr` counts the uses of its object and deletes it with the last.
pub mod Counts
pub mod Counted
pub mod Reaping
pub mod Laws
mod Examples
use vae_thrift.Prelude.{
  ℕ, ◌+◌, ◌-◌, ◌≡◌, ◌<◌, ◌==◌, if◌then◌else◌, Bool, true, false, Option, none, some, List, [], ◌∷◌,
  ◌++◌,
}
use vae_thrift.Prelude.Int.{ℤ}
use vae_thrift.Prelude.Bytes.{Bytes}
use vae_thrift.Prelude.Eq.{int_eq}
use vae_thrift.Prelude.Map.{Map, find, assign, erase}
use vae_thrift.Exec.{Result, ok}
use vae_thrift.Session.{Responses, Session, Answer, new_session, get}
use vae_thrift.Handler.Sessions.Reaper.{is_old}

module _ {Site : Type 0} (r : Responses Site) where
  -- The map, the session objects by address, their use counts, and the local `shared_ptr` of each
  -- thread.
  pub record Shared : Type 0 where
    pub sessions : Map ℤ ℕ
    pub objects : ℕ → Option (Session r)
    pub count : ℕ → ℕ
    pub held : ℕ → Option ℕ

  abbrev pub no_sessions : Shared
  no_sessions = record { sessions = []; objects = λ a. none; count = λ a. 0; held = λ t. none }

  abbrev pub set {ℓ} : {A : Type ℓ} → (ℕ → A) → ℕ → A → ℕ → A
  set f a v b = if a == b then v else f b

  -- A `shared_ptr` is copied, and one is destroyed.
  abbrev pub copy : ℕ → Shared → Shared
  copy a s = record s { count = set s.count a (s.count a + 1) }

  abbrev pub release : ℕ → Shared → Shared
  release a s = record s {
    objects = if s.count a == 1 then set s.objects a none else s.objects;
    count = set s.count a (s.count a - 1);
  }

  -- `sessions[sessionId] = session` in `openSession`, whose local copy ends with the block.
  unfoldable pub open_shared : ℤ → ℕ → Site → ℕ → Shared → Shared
  open_shared id a site now s = record s {
    sessions = assign id a s.sessions;
    objects = set s.objects a (some (new_session r site now));
    count = set s.count a 1;
  }

  -- `sessions.erase(sessionId)`
  unfoldable pub close_shared : ℤ → Shared → Shared
  close_shared id s = elim (find id s.sessions) [
    | none ↦ s
    | some a ↦ release a (record s { sessions = erase id s.sessions })
  ]

  -- `session = sessions[sessionId]`, for thread `t`.
  unfoldable pub find_shared : ℕ → ℤ → Shared → Shared
  find_shared t id s = elim (find id s.sessions) [
    | none ↦ s
    | some a ↦ copy a (record s { held = set s.held t (some a) })
  ]

  -- The end of a call.
  unfoldable pub end_call : ℕ → Shared → Shared
  end_call t s = elim (s.held t) [
    | none ↦ s
    | some a ↦ release a (record s { held = set s.held t none })
  ]

  -- The reaper's loop: none where it would read a session that was deleted.
  unfoldable pub reap_each : ℕ → Map ℤ ℕ → Shared → Option Shared
  reap_each now [] s = some s
  reap_each now ((id, a) ∷ more) s = elim (s.objects a) [
    | none ↦ none
    | some session ↦ reap_each now more (if is_old r now session then close_shared id s else s)
  ]

  unfoldable pub reap_shared : ℕ → Shared → Option Shared
  reap_shared now s = reap_each now s.sessions s

  -- A step of one of the first `n` threads, or of the reaper.
  pub data Step (n : ℕ) (s : Shared) : Shared → Type 0 where
    opens :
        (id : ℤ) (a now : ℕ) (site : Site)
        → find id s.sessions ≡ none
        → s.objects a ≡ none
        → Step n s (open_shared id a site now s)
    closes : (id : ℤ) → Step n s (close_shared id s)
    finds : (t : ℕ) (id : ℤ) → t < n → s.held t ≡ none → Step n s (find_shared t id s)
    queries :
        (t a : ℕ) (session session' : Session r) (response_id : ℤ) (query : Bytes)
        (options : Map Bytes Bytes) (answer : Answer r)
        → t < n
        → s.held t ≡ some a
        → s.objects a ≡ some session
        → get r session response_id query options ≡ ok (answer, session')
        → Step n s (record s { objects = set s.objects a (some session') })
    ends : (t : ℕ) → t < n → Step n s (end_call t s)
    reaps : (now : ℕ) (s' : Shared) → reap_shared now s ≡ some s' → Step n s s'

  pub data Reach (n : ℕ) (s : Shared) : Shared → Type 0 where
    here : Reach n s s
    next : {t u : Shared} → Reach n s t → Step n t u → Reach n s u
