-- ===== src/Handler/Threads/Examples.antt =====
-- A thread that loads a site, and one that waits for it.
use vae_thrift.Prelude.{inl, ℕ, ◌≡◌, refl, false, none, some, [], arith}
use vae_thrift.Prelude.Bytes.{Bytes, bytes}
use vae_thrift.Prelude.Eq.{bytes_eq}
use vae_thrift.Prelude.Map.{find}
use vae_thrift.Exec.{ok}
use vae_thrift.Site.{read_keys, new_site}
use vae_thrift.Handler.Examples.{feeds, blog}
use vae_thrift.Handler.Threads.{
  Request, key_of, idle, entering, looking, loading, unloading, ended, Shared, at_key, move, take,
  advance, get_site_call, goes, call, Reach, here, next,
}
use vae_thrift.Handler.Threads.Laws.{inside, IsOwned, Reach-Owns}
use vae_thrift.Handler.Threads.Progress.{Ends, steps_left}
use vae_thrift.Handler.Threads.Quiet.{IsBounded, Reach-quiet}
use vae_thrift.Handler.Threads.Stale.{reload_misses}

abbrev request : Request
request = record { subdomain = bytes "blog"; secret_key = bytes "key"; staging = false }

abbrev resting : Shared feeds
resting = record { sites = []; held = λ k. none; threads = λ t. idle; world = 0 }

resting-IsOwned : IsOwned feeds resting
resting-IsOwned = record { owner = λ t k h. cc; stands = λ t k h. cc }

-- Thread 1 has entered, thread 2 waits, and thread 1 has the mutex.
abbrev one_called : Shared feeds
one_called = move feeds 1 (entering request) resting

abbrev two_called : Shared feeds
two_called = move feeds 2 (entering request) one_called

abbrev one_inside : Shared feeds
one_inside =
    move feeds 1 (looking request)
      (record two_called { held = at_key feeds two_called.held (key_of request) (some 1) })

trace : Reach feeds false resting one_inside
unfolding advance take
trace =
    next
      (next (next here (call 1 (entering request) refl (get_site_call request)))
        (call 2 (entering request) refl (get_site_call request)))
      (goes 1 one_inside refl)

one_inside-IsBounded : IsBounded feeds 3 one_inside.threads
one_inside-IsBounded u far = ground arith

Reach-Owns_example :
    IsOwned feeds one_inside
    × ((t u : ℕ) (k : Bytes)
        → inside feeds (one_inside.threads t) ≡ some k
        → inside feeds (one_inside.threads u) ≡ some k
        → t ≡ u)
Reach-Owns_example = Reach-Owns feeds false resting one_inside trace resting-IsOwned

feeds-Ends : Ends feeds false
unfolding new_site read_keys
feeds-Ends subdomain staging xml w = inl (_, refl)

Reach-quiet_example :
    (s : Shared feeds) × Reach feeds false one_inside s
    × ((u : ℕ) → steps_left feeds (s.threads u) ≡ 0)
    × ((k : Bytes) → s.held k ≡ none)
Reach-quiet_example =
    Reach-quiet feeds false feeds-Ends resting one_inside trace resting-IsOwned 3
      one_inside-IsBounded

-- Thread 1 has read the feed and not yet made its site.
abbrev half_loaded : Shared feeds
half_loaded = move feeds 1 (loading request (bytes "old")) resting

blog_made :
    new_site false feeds (bytes "blog") false (bytes "old") 1
    ≡ (ok (record blog { doc = bytes "old" }), 2)
unfolding new_site read_keys
blog_made = refl

reload_misses_example :
    (s₁ s₂ : Shared feeds) × Reach feeds false half_loaded s₁
    × (s₁.threads 2 ≡ unloading (bytes "blog") [] (bytes "blog-feed.xml"))
    × Reach feeds false s₁ s₂
    × (s₂.threads 2 ≡ ended)
    × (find (bytes "blog") s₂.sites ≡ some (record blog { doc = bytes "old" }))
unfolding find
reload_misses_example =
    reload_misses feeds false half_loaded 1 2 request (bytes "old")
      (record blog { doc = bytes "old" }) 2 (omega arith) refl refl refl refl blog_made
