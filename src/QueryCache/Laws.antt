-- ===== src/QueryCache/Laws.antt =====
-- The cache does not show.
use vae_thrift.Prelude.{ℕ, ◌≡◌, refl, sym, ap, inl, inr, List, [], ◌∷◌, map, Option-cases}
use vae_thrift.Exec.{ok, Result-cases}
use vae_thrift.Query.{Engine, new_query}
use vae_thrift.QueryCache.{LruKey, LruCache, IsCache, insert_query, fetch_query, fetch_queries}

module _ (l : LruCache (List ℕ)) (cache : IsCache l) (e : Engine) (fuel : ℕ) where
  -- Every query in the cache is what its constructor made of its key.
  abbrev pub IsSound : l.Cache → Type 0
  IsSound c =
      (k : LruKey) (found : List ℕ) → cache.Holds k found c → new_query e fuel k.0 k.1 ≡ ok found

  insert_query_lem :
      (key : LruKey) (c : l.Cache)
      → IsSound c
      → ((insert_query l e fuel key c).0 ≡ new_query e fuel key.0 key.1)
        × IsSound (insert_query l e fuel key c).1
  unfolding insert_query
  insert_query_lem key c sound = elim (Result-cases (new_query e fuel key.0 key.1)) [
    | inl (found, made) ↦
        rw (insert_query, made)
          (
            refl,
            λ k u h. elim (cache.holds-insert k key u found c h) [
              | inl (same, is) ↦ rw (same, is) made
              | inr before ↦ sound k u before
            ],
          )
    | inr (inl (err, made)) ↦ rw (insert_query, made) (refl, sound)
    | inr (inr (inl made)) ↦ rw (insert_query, made) (refl, sound)
    | inr (inr (inr made)) ↦ rw (insert_query, made) (refl, sound)
  ]

  fetch_query_lem :
      (key : LruKey) (c : l.Cache)
      → IsSound c
      → ((fetch_query l e fuel key c).0 ≡ new_query e fuel key.0 key.1)
        × IsSound (fetch_query l e fuel key c).1
  unfolding fetch_query
  fetch_query_lem key c sound = elim (Option-cases (l.fetch key c).0) [
    | inr (found, hit) ↦
        rw (fetch_query, hit)
          (
            sym (sound key found (cache.holds_fetched key found c hit)),
            λ k u h. sound k u (cache.holds-fetch k key u c h),
          )
    | inl miss ↦
        rw (fetch_query, miss)
          (insert_query_lem key (l.fetch key c).1
            (λ k u h. sound k u (cache.holds-fetch k key u c h)))
  ]

  fetch_queries-IsSound :
      (keys : List LruKey) (c : l.Cache)
      → IsSound c
      → fetch_queries l e fuel keys c ≡ map (λ (k : LruKey). new_query e fuel k.0 k.1) keys
  unfolding fetch_queries
  fetch_queries-IsSound [] c sound = refl
  fetch_queries-IsSound (key ∷ keys) c sound =
      let (same, sound') = fetch_query_lem key c sound in
      rw same (
        ap (◌∷◌ (new_query e fuel key.0 key.1))
          (fetch_queries-IsSound keys (fetch_query l e fuel key c).1 sound'))

  -- Whatever the cache drops, the queries that a site fetches, one after the other from an empty
  -- cache, have the results, errors included, that their constructors give.
  pub fetch_queries_lem :
      (keys : List LruKey)
      → fetch_queries l e fuel keys l.empty ≡ map (λ (k : LruKey). new_query e fuel k.0 k.1) keys
  fetch_queries_lem keys =
      fetch_queries-IsSound keys l.empty (λ k u h. absurd (cache.holds-empty k u h))
