-- ===== src/Handler/Caches/Laws.antt =====
-- Which entries of memcache the calls reach, and what they do for a number that names no session.
use vae_thrift.Prelude.{◌≡◌, ◌≢◌, refl, ap, none, [], ◌∷◌, ◌++◌, arith}
use vae_thrift.Prelude.Int.{ℤ, negsuc}
use vae_thrift.Prelude.Bytes.{Bytes, bytes}
use vae_thrift.Prelude.Eq.{int_eq}
use vae_thrift.Prelude.Map.{find}
use vae_thrift.Exec.{ok}
use vae_thrift.Handler.State.{Backend, State}
use vae_thrift.Handler.Caches.{
  short_term_key, long_term_key, short_term_cache_get, short_term_cache_set,
  short_term_cache_delete, session_cache_get, session_cache_set, session_cache_delete,
  long_term_cache_get, long_term_cache_set, long_term_cache_delete, long_term_cache_empty,
  long_term_cache_sweeper_info, sitewide_lock, sitewide_unlock,
}

append_cancel : (xs ys zs : Bytes) → xs ++ ys ≡ xs ++ zs → ys ≡ zs
append_cancel [] ys zs h = h
append_cancel (x ∷ xs) ys zs h = append_cancel xs ys zs (cc)

append_assoc : (xs ys zs : Bytes) → (xs ++ ys) ++ zs ≡ xs ++ (ys ++ zs)
append_assoc [] ys zs = refl
append_assoc (x ∷ xs) ys zs = ap (◌∷◌ x) (append_assoc xs ys zs)

-- The calls of one site on memcache: different keys have different entries, in each of the two
-- caches, and no entry of one cache is an entry of the other.
pub keys_apart :
    (subdomain key key' : Bytes)
    → (short_term_key subdomain key ≡ short_term_key subdomain key' → key ≡ key')
      × (long_term_key subdomain key ≡ long_term_key subdomain key' → key ≡ key')
      × (short_term_key subdomain key ≢ long_term_key subdomain key')
keys_apart subdomain key key' = (
  λ h.
      append_cancel (bytes ":") key key'
        (append_cancel subdomain _ _ (append_cancel (bytes "VaedbProxy:") _ _ h)),
  λ h.
      append_cancel (bytes "LongTerm2:") key key'
        (append_cancel subdomain _ _ (append_cancel (bytes "VaedbProxy:") _ _ h)),
  λ h.
      let e : bytes ":" ++ key ≡ bytes "LongTerm2:" ++ key' =
        append_cancel subdomain _ _ (append_cancel (bytes "VaedbProxy:") _ _ h) in
      ground arith,
)

-- Two sites are not always apart: the short-term entries of the site `<name>LongTerm2` are the
-- long-term entries of the site `<name>`, whatever the name and the key.
pub keys_collide :
    (subdomain key : Bytes)
    → short_term_key (subdomain ++ bytes "LongTerm2") key ≡ long_term_key subdomain key
keys_collide subdomain key =
    ap (λ x. bytes "VaedbProxy:" ++ x)
      (append_assoc subdomain (bytes "LongTerm2") (bytes ":" ++ key))

module _ (b : Backend) where
  -- A number that names no session: every call on the caches answers at once with the empty answer,
  -- and the two on the lock with -1; nothing at all changes, in this process or outside it.
  pub no_session_no_effect :
      (id flags expiry which : ℤ) (key value : Bytes) (s : State b)
      → find id s.sessions ≡ none
      → (short_term_cache_get b id key flags s ≡ (ok [], s))
        × (short_term_cache_set b id key value flags expiry s ≡ (ok tt, s))
        × (short_term_cache_delete b id key s ≡ (ok tt, s))
        × (session_cache_get b id key s ≡ (ok [], s))
        × (session_cache_set b id key value s ≡ (ok tt, s))
        × (session_cache_delete b id key s ≡ (ok tt, s))
        × (long_term_cache_get b id key expiry which s ≡ (ok [], s))
        × (long_term_cache_set b id key value expiry which s ≡ (ok tt, s))
        × (long_term_cache_delete b id key s ≡ (ok tt, s))
        × (long_term_cache_empty b id s ≡ (ok tt, s))
        × (long_term_cache_sweeper_info b id s ≡ (ok [], s))
        × (sitewide_lock b id s ≡ (ok (negsuc 0), s))
        × (sitewide_unlock b id s ≡ (ok (negsuc 0), s))
  unfolding short_term_cache_get short_term_cache_set short_term_cache_delete session_cache_get
      session_cache_set session_cache_delete long_term_cache_get long_term_cache_set
      long_term_cache_delete long_term_cache_empty long_term_cache_sweeper_info sitewide_lock
      sitewide_unlock
  no_session_no_effect id flags expiry which key value s absent = (
    ground arith,
    ground arith,
    ground arith,
    ground arith,
    ground arith,
    ground arith,
    ground arith,
    ground arith,
    ground arith,
    ground arith,
    ground arith,
    ground arith,
    ground arith,
  )
