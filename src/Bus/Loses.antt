-- ===== src/Bus/Loses.antt =====
-- Two messages for one site.
use vae_thrift.Prelude.{ℕ, ◌≡◌, ◌≢◌, refl, Bool, true, false, none, some, ◌++◌, arith}
use vae_thrift.Prelude.Bytes.{Bytes, bytes}
use vae_thrift.Prelude.Eq.{bytes_eq}
use vae_thrift.Prelude.Map.{find}
use vae_thrift.Exec.{ok}
use vae_thrift.Site.{Feeds, Site, new_site}
use vae_thrift.Handler.Sites.{sites_key}
use vae_thrift.Handler.Threads.{idle, counting, ended, move}
use vae_thrift.Handler.Threads.Stale.{stands_at}
use vae_thrift.Handler.Threads.Overlap.{reloads_lose}
use vae_thrift.Bus.{Bus, receive, Reach, here, next}
use vae_thrift.Bus.Laws.{Threads-Reach}

module _ (f : Feeds) (test_mode : Bool) where
  Reach-trans :
      (a b c : Bus f test_mode)
      → Reach f test_mode a b
      → Reach f test_mode b c
      → Reach f test_mode a c
  Reach-trans a b _ before here = before
  Reach-trans a b _ before (next {bus₁} reach step) = next (Reach-trans a b bus₁ before reach) step

  -- While the thread `u` that a message has started is about to reload its site, a second message for the
  -- same site may come. Then the bus can reach a state in which both reloads have come to their ends
  -- and no site of the subdomain is loaded, although the production site was and the feed that was
  -- read makes a site.
  pub reload_loses :
      (bus : Bus f test_mode) (t u : ℕ) (subdomain : Bytes) (old site : Site f.Doc) (w : f.World)
      → t ≢ u
      → bus.pending ≡ none
      → bus.shared.threads t ≡ idle
      → bus.shared.threads u ≡ counting subdomain
      → find (sites_key subdomain false) bus.shared.sites ≡ some old
      → find (sites_key subdomain true) bus.shared.sites ≡ none
      → bus.shared.held (sites_key subdomain false) ≡ none
      → let (xml, w₀) = f.read_s3 (subdomain ++ bytes "-feed.xml") bus.shared.world in
        new_site test_mode f subdomain false xml w₀ ≡ (ok site, w)
        → (bus' : Bus f test_mode) × Reach f test_mode bus bus'
          × (bus'.pending ≡ some (subdomain, t))
          × (bus'.shared.threads t ≡ ended)
          × (bus'.shared.threads u ≡ ended)
          × ((staging : Bool) → find (sites_key subdomain staging) bus'.shared.sites ≡ none)
  reload_loses bus t u subdomain old site w other waits free about loaded only unlocked made =
      let called = move f t (counting subdomain) bus.shared in
      let received = record bus { shared = called; pending = some (subdomain, t) } in
      let (shared', reach, done, done', gone) =
        reloads_lose f test_mode called t u subdomain old site w other
          (stands_at f test_mode bus.shared t (counting subdomain)) (ground (arith, about)) loaded
          only unlocked made in
      let one : Reach f test_mode bus received = next here (receive subdomain t waits free) in
      (
        record received { shared = shared' },
        Reach-trans bus received _ one (Threads-Reach f test_mode received shared' reach),
        refl,
        done,
        done',
        gone,
      )
