-- ===== src/Bus/Examples.antt =====
-- The thread of one message, and a second message for the same site.
use vae_thrift.Prelude.{
  ℕ, ◌≡◌, refl, ◌==◌, if◌then◌else◌, Bool, true, false, none, some, [], ◌∷◌, arith,
}
use vae_thrift.Prelude.Bytes.{Bytes, bytes}
use vae_thrift.Prelude.Eq.{Bytes-discrete, bytes_eq}
use vae_thrift.Prelude.Map.{find}
use vae_thrift.Exec.{ok}
use vae_thrift.Site.{new_site, read_keys}
use vae_thrift.Handler.Sites.{sites_key}
use vae_thrift.Handler.Examples.{feeds, blog}
use vae_thrift.Handler.Threads.{Thread, idle, counting, ended, Shared, move}
use vae_thrift.Bus.{Bus, Reach}
use vae_thrift.Bus.Loses.{reload_loses}

abbrev one_thread : ℕ → Thread feeds
one_thread t = if t == 2 then counting (bytes "blog") else idle

abbrev started : Shared feeds
started = record {
  sites = (bytes "blog", blog) ∷ [];
  held = λ k. none;
  threads = one_thread;
  world = 0;
}

abbrev waiting : Bus feeds false
waiting = record { shared = started; pending = none; threads = 2 ∷ [] }

made_again :
    new_site false feeds (bytes "blog") false (bytes "blog-feed.xml") 1
    ≡ (ok (record blog { doc = bytes "blog-feed.xml" }), 2)
unfolding new_site read_keys
made_again = refl

loaded : find (sites_key (bytes "blog") false) started.sites ≡ some blog
unfolding find Bytes-discrete
loaded = refl

only : find (sites_key (bytes "blog") true) started.sites ≡ none
unfolding find Bytes-discrete
only = refl

reload_loses_example :
    (bus : Bus feeds false) × Reach feeds false waiting bus
    × (bus.pending ≡ some (bytes "blog", 1))
    × (bus.shared.threads 1 ≡ ended)
    × (bus.shared.threads 2 ≡ ended)
    × ((staging : Bool) → find (sites_key (bytes "blog") staging) bus.shared.sites ≡ none)
reload_loses_example =
    reload_loses feeds false waiting 1 2 (bytes "blog") blog
      (record blog { doc = bytes "blog-feed.xml" }) 2 (omega arith) refl refl refl loaded only refl
      made_again

abbrev received : Bus feeds false
received = record waiting {
  shared = move feeds 1 (counting (bytes "blog")) started;
  pending = some (bytes "blog", 1);
}
