-- ===== src/QueryCache/Examples.antt =====
-- A cache with room for one query.
use vae_thrift.Prelude.{ℕ, ◌≡◌, inl, ite, Option, none, some, List, [], ◌∷◌, map, arith, ℕ_discrete}
use vae_thrift.Prelude.Bytes.{bytes}
use vae_thrift.Query.{new_query}
use vae_thrift.Query.Examples.{engine}
use vae_thrift.QueryCache.{LruKey, LruCache, IsCache, fetch_queries}
use vae_thrift.QueryCache.Laws.{fetch_queries_lem}

same_key : Discrete LruKey
same_key = hlevel ℕ_discrete

abbrev Slot : Type 0
Slot = Option (LruKey × List ℕ)

abbrev look : LruKey → Slot → Option (List ℕ)
look k none = none
look k (some (j, found)) = ite (same_key j k) (some found) none

abbrev one_slot : LruCache (List ℕ)
one_slot = record {
  Cache = Slot;
  empty = none;
  fetch = λ k c. (look k c, c);
  insert = λ k found c. some (k, found);
}

look-some : (k : LruKey) (v : List ℕ) (c : Slot) → look k c ≡ some v → c ≡ some (k, v)
look-some k v none h = cc
look-some k v (some (j, found)) h = ground arith

one_slot-IsCache : IsCache one_slot
one_slot-IsCache = record {
  Holds = λ k v c. c ≡ some (k, v);
  holds-empty = λ k v h. cc;
  holds_fetched = look-some;
  holds-fetch = λ j k v c h. h;
  holds-insert = λ j k u v c h. inl (cc, cc);
}

abbrev keys : List LruKey
keys =
    (none, bytes "permalink/news/2012")
    ∷ (none, bytes "permalink/none")
    ∷ (none, bytes "permalink/news/2012")
    ∷ []

fetch_queries_lem_example :
    fetch_queries one_slot engine 5 keys none
    ≡ map (λ (k : LruKey). new_query engine 5 k.0 k.1) keys
fetch_queries_lem_example = fetch_queries_lem one_slot one_slot-IsCache engine 5 keys
