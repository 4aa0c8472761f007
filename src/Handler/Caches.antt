-- ===== src/Handler/Caches.antt =====
-- The calls on the caches and the sitewide lock. Each finds the session, and passes the subdomain of
-- its site to the cache proxies; a number that names no session gets the default answer.
pub mod Laws
use vae_thrift.Prelude.{
  ℕ, zero, suc, ◌+◌, if◌then◌else◌, Bool, true, false, Option, none, some, List, [], ◌∷◌, ◌++◌, ite,
}
use vae_thrift.Prelude.Int.{ℤ, pos, negsuc}
use vae_thrift.Prelude.Bytes.{Bytes, bytes}
use vae_thrift.Prelude.Eq.{Bytes-discrete, ℤ-discrete}
use vae_thrift.Exec.{Exec, pure, ◌>>=◌, ◌>>◌}
use vae_thrift.Site.{Feeds, Site}
use vae_thrift.Session.{Responses, Session}
use vae_thrift.Handler.State.{Backend, State, outside, outside_only, with_session}

abbrev pub short_term_key : Bytes → Bytes → Bytes
short_term_key subdomain key = bytes "VaedbProxy:" ++ (subdomain ++ (bytes ":" ++ key))

abbrev pub long_term_key : Bytes → Bytes → Bytes
long_term_key subdomain key = bytes "VaedbProxy:" ++ (subdomain ++ (bytes "LongTerm2:" ++ key))

module _ (b : Backend) where
  abbrev pub for_subdomain {ℓ} :
      {A : Type ℓ} → ℤ → A → (Bytes → Exec (State b) A) → Exec (State b) A
  for_subdomain id absent body = with_session b id absent λ session. body session.site.subdomain

  unfoldable pub short_term_cache_get : ℤ → Bytes → ℤ → Exec (State b) Bytes
  short_term_cache_get id key flags =
      for_subdomain id [] λ sub. outside b (b.memcache_get (short_term_key sub key) flags)

  unfoldable pub short_term_cache_set : ℤ → Bytes → Bytes → ℤ → ℤ → Exec (State b) (Unit {0})
  short_term_cache_set id key value flags expire_interval =
      for_subdomain id tt
        λ sub. outside_only b (b.memcache_set (short_term_key sub key) value flags expire_interval)

  unfoldable pub short_term_cache_delete : ℤ → Bytes → Exec (State b) (Unit {0})
  short_term_cache_delete id key =
      for_subdomain id tt λ sub. outside_only b (b.memcache_remove (short_term_key sub key))

  unfoldable pub session_cache_get : ℤ → Bytes → Exec (State b) Bytes
  session_cache_get id key = for_subdomain id [] λ sub. outside b (b.session_cache_get sub key)

  unfoldable pub session_cache_set : ℤ → Bytes → Bytes → Exec (State b) (Unit {0})
  session_cache_set id key value =
      for_subdomain id tt λ sub. outside_only b (b.session_cache_set sub key value)

  unfoldable pub session_cache_delete : ℤ → Bytes → Exec (State b) (Unit {0})
  session_cache_delete id key =
      for_subdomain id tt λ sub. outside_only b (b.session_cache_delete sub key)

  -- The rest of `longTermCacheGet`, when memcache is not asked or has nothing.
  unfoldable pub long_term_fetch : Bytes → Bytes → ℤ → Exec (State b) Bytes
  long_term_fetch subdomain key renew_expiry = do
    answer ← outside b (b.long_term_cache_get subdomain key renew_expiry)
    outside_only b (b.memcache_set (long_term_key subdomain key) answer (pos 0) (pos 86400))
    pure answer

  unfoldable pub long_term_cache_get : ℤ → Bytes → ℤ → ℤ → Exec (State b) Bytes
  long_term_cache_get id key renew_expiry use_short_term_cache = for_subdomain id [] λ sub.
      ite (ℤ-discrete use_short_term_cache (pos 0)) (long_term_fetch sub key renew_expiry) (do
        answer ← outside b (b.memcache_get (long_term_key sub key) (pos 0))
        ite (Bytes-discrete answer []) (long_term_fetch sub key renew_expiry) (pure answer))

  unfoldable pub long_term_cache_set : ℤ → Bytes → Bytes → ℤ → ℤ → Exec (State b) (Unit {0})
  long_term_cache_set id key value expire_interval is_filename = for_subdomain id tt λ sub. do
    outside_only b (b.long_term_cache_set sub key value expire_interval is_filename)
    outside_only b (b.memcache_set (long_term_key sub key) value (pos 0) (pos 86400))

  unfoldable pub long_term_cache_delete : ℤ → Bytes → Exec (State b) (Unit {0})
  long_term_cache_delete id key = for_subdomain id tt λ sub. do
    outside_only b (b.long_term_cache_delete sub key)
    outside_only b (b.memcache_remove (long_term_key sub key))

  unfoldable pub long_term_cache_empty : ℤ → Exec (State b) (Unit {0})
  long_term_cache_empty id = for_subdomain id tt λ sub. outside_only b (b.long_term_cache_empty sub)

  -- The answer is a map, empty where the call returns early.
  unfoldable pub long_term_cache_sweeper_info : ℤ → Exec (State b) (List (Bytes × Bytes))
  long_term_cache_sweeper_info id =
      for_subdomain id [] λ sub. outside b (b.long_term_cache_sweeper_info sub)

  unfoldable pub sitewide_lock : ℤ → Exec (State b) ℤ
  sitewide_lock id = for_subdomain id (negsuc 0) λ sub. outside b (b.lock sub)

  unfoldable pub sitewide_unlock : ℤ → Exec (State b) ℤ
  sitewide_unlock id = for_subdomain id (negsuc 0) λ sub. outside b (b.unlock sub)
