-- ===== src/Bus/Laws.antt =====
-- What the bus does is what threads do that call `reloadSite`.
use vae_thrift.Prelude.{Bool}
use vae_thrift.Prelude.Bytes.{Bytes}
use vae_thrift.Site.{Feeds}
use vae_thrift.Handler.Threads
use vae_thrift.Handler.Threads.{Shared}
use vae_thrift.Bus.{Bus, thread_moves, Reach, here, next}

module _ (f : Feeds) (test_mode : Bool) where
  -- The threads go on under the bus.
  pub Threads-Reach :
      (bus : Bus f test_mode) (shared' : Shared f)
      → vae_thrift.Handler.Threads.Reach f test_mode bus.shared shared'
      → Reach f test_mode bus (record bus { shared = shared' })
  Threads-Reach bus _ vae_thrift.Handler.Threads.here = here
  Threads-Reach bus shared' (vae_thrift.Handler.Threads.next {t} {u} reach step) =
      next (Threads-Reach bus t reach) (thread_moves shared' step)
