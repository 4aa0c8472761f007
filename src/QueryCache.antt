-- ===== src/QueryCache.antt =====
-- `Site::fetch_query` in cpp/site.cpp: the queries of a site are kept in a cache of the class of
-- cpp/lru_cache.h, which comes from another project: the interface `LruCache`.
pub mod Laws
mod Examples
use vae_thrift.Prelude.{ℕ, ◌≡◌, ◌⊎◌, Option, none, some, List, [], ◌∷◌}
use vae_thrift.Prelude.Bytes.{Bytes}
use vae_thrift.Exec.{Result, ok, Exec, pure, lift, modify, ◌>>=◌, ◌>>◌}
use vae_thrift.Query.{Engine, new_query}

-- LRUKey: a context, by its node, and a query.
abbrev pub LruKey : Type 0
LruKey = Option ℕ × Bytes

-- `fetch(key, false)` and `insert`. Both may change what the cache drops next.
pub record LruCache (V : Type 0) : Type 1 where
  pub Cache : Type 0
  pub empty : Cache
  pub fetch : LruKey → Cache → Option V × Cache
  pub insert : LruKey → V → Cache → Cache

-- What is documented of such a cache: it holds nothing but what was inserted under the key, and it
-- may drop any of it at any time.
pub record IsCache {V : Type 0} (l : LruCache V) : Type 1 where
  pub Holds : LruKey → V → l.Cache → Type 0
  pub holds-empty : (k : LruKey) (v : V) → ¬ Holds k v l.empty
  pub holds_fetched : (k : LruKey) (v : V) (c : l.Cache) → (l.fetch k c).0 ≡ some v → Holds k v c
  pub holds-fetch : (j k : LruKey) (v : V) (c : l.Cache) → Holds j v (l.fetch k c).1 → Holds j v c
  pub holds-insert :
      (j k : LruKey) (u v : V) (c : l.Cache)
      → Holds j u (l.insert k v c)
      → ((j ≡ k) × (u ≡ v)) ⊎ Holds j u c

module _ (l : LruCache (List ℕ)) (e : Engine) (fuel : ℕ) where
  open l use {Cache}

  -- The query is made and kept, unless its constructor throws.
  unfoldable pub insert_query : LruKey → Exec Cache (List ℕ)
  insert_query key = do
    found ← lift (new_query e fuel key.0 key.1)
    modify λ c. l.insert key found c
    pure found

  unfoldable pub fetch_query : LruKey → Exec Cache (List ℕ)
  fetch_query key c =
      let (p_query, c') = l.fetch key c in
      elim p_query [ some found ↦ (ok found, c') | none ↦ insert_query key c' ]

  -- The queries of a site, one after the other, and their results.
  unfoldable pub fetch_queries : List LruKey → Cache → List (Result (List ℕ))
  fetch_queries [] c = []
  fetch_queries (key ∷ keys) c = let (r, c') = fetch_query key c in r ∷ fetch_queries keys c'
