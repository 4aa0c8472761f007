-- ===== src/Handler/State.antt =====
-- The fields of `VaeDbHandler`, and what surrounds a call: the entry of the query log, and the
-- search for the session.
pub mod Laws
use vae_thrift.Prelude.{
  ℕ, zero, suc, ◌+◌, if◌then◌else◌, Bool, true, false, Option, none, some, List, [], ◌∷◌, ◌++◌,
}
use vae_thrift.Prelude.Int.{ℤ}
use vae_thrift.Prelude.Bytes.{Bytes}
use vae_thrift.Prelude.Eq.{int_eq}
use vae_thrift.Prelude.Map.{Map, find, assign}
use vae_thrift.Exec.{Result, ok, raise, undefined, diverges, Exec, pure, lift, modify, ◌>>=◌, ◌>>◌}
use vae_thrift.Site.{Feeds, Site}
use vae_thrift.Session.{Responses, Session}
use vae_thrift.QueryLog.Entry.{
  QueryLog, Entry, Value, new_entry, method_call, log_values, end_entry, set_subdomain,
}

-- What the handler calls and this development does not define: the two cache proxies, `rand`, the
-- clocks and the streams' decimal output. Some of it acts on the `World` of `Feeds`.
pub record Backend : Type 1 where
  pub feeds : Feeds
  pub responses : Responses (Site feeds.Doc)
  pub show : ℤ → Bytes
  pub time : feeds.World → ℕ
  pub microseconds : feeds.World → ℕ
  pub rand : feeds.World → ℤ × feeds.World
  pub memcache_get : Bytes → ℤ → feeds.World → Bytes × feeds.World
  pub memcache_set : Bytes → Bytes → ℤ → ℤ → feeds.World → feeds.World
  pub memcache_remove : Bytes → feeds.World → feeds.World
  pub session_cache_get : Bytes → Bytes → feeds.World → Bytes × feeds.World
  pub session_cache_set : Bytes → Bytes → Bytes → feeds.World → feeds.World
  pub session_cache_delete : Bytes → Bytes → feeds.World → feeds.World
  pub long_term_cache_get : Bytes → Bytes → ℤ → feeds.World → Bytes × feeds.World
  pub long_term_cache_set : Bytes → Bytes → Bytes → ℤ → ℤ → feeds.World → feeds.World
  pub long_term_cache_delete : Bytes → Bytes → feeds.World → feeds.World
  pub long_term_cache_empty : Bytes → feeds.World → feeds.World
  pub long_term_cache_sweeper_info : Bytes → feeds.World → List (Bytes × Bytes) × feeds.World
  pub lock : Bytes → feeds.World → ℤ × feeds.World
  pub unlock : Bytes → feeds.World → ℤ × feeds.World

module _ (b : Backend) where
  -- The address of a site's mutex stands for the mutex. `entry` is the log entry of the call.
  pub record State : Type 0 where
    pub sessions : Map ℤ (Session b.responses)
    pub sites : Map Bytes (Site b.feeds.Doc)
    pub site_mutexes : Map Bytes ℕ
    pub log : QueryLog
    pub entry : Entry
    pub world : b.feeds.World

  -- A call into the world.
  abbrev pub outside {ℓ} : {A : Type ℓ} → (b.feeds.World → A × b.feeds.World) → Exec State A
  outside f s = let (a, w) = f s.world in (ok a, record s { world = w })

  abbrev pub outside_only : (b.feeds.World → b.feeds.World) → Exec State (Unit {0})
  outside_only f s = (ok tt, record s { world = f s.world })

  -- `entry.set_subdomain`
  abbrev pub note_subdomain : Bytes → Exec State (Unit {0})
  note_subdomain subdomain = modify λ s. record s { entry = set_subdomain subdomain s.entry }

  -- The end of the entry's scope, after a return or an exception.
  unfoldable pub close {ℓ} : {A : Type ℓ} → Result A × State → Result A × State
  close (ok a, s) =
      (ok a, record s { log = end_entry b.show s.log (b.microseconds s.world) s.entry })
  close (raise e, s) =
      (raise e, record s { log = end_entry b.show s.log (b.microseconds s.world) s.entry })
  close (undefined, s) = (undefined, s)
  close (diverges, s) = (diverges, s)

  -- `QueryLogEntry entry(queryLog); entry.method_call(name) << args;` and the body behind it.
  unfoldable pub logged {ℓ} : {A : Type ℓ} → ℕ → Bytes → List Value → Exec State A → Exec State A
  unfolding close
  logged fuel name args body s =
      let (e, log) = new_entry s.log in
      elim (log_values b.show fuel log args
        (method_call b.show log name (b.microseconds s.world) e)) [
          | none ↦ (diverges, record s { log = log })
          | some e' ↦ close (body (record s { log = log; entry = e' }))
        ]

  -- The session of a call, or the answer `absent` for a number that names none.
  abbrev pub with_session {ℓ} :
      {A : Type ℓ} → ℤ → A → (Session b.responses → Exec State A) → Exec State A
  with_session id absent body s = elim (find id s.sessions) [
    | none ↦ (ok absent, s)
    | some session ↦ body session s
  ]
