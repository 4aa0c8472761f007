-- ===== src/Bus.antt =====
-- cpp/bus.cpp: the messages that reload sites. A message is reloaded when it is received, and once
-- more in a thread of its own; threads that have ended are joined with the next message. The reloads
-- are calls of `reloadSite` as Handler/Threads has them, each under a number of its own, cut where
-- they take and give up the mutexes. An exception that leaves `reloadSite` would end the process; here
-- its call just ends.
pub mod Laws
pub mod Loses
mod Examples
use vae_thrift.Prelude.{ℕ, ◌≡◌, Bool, true, false, Option, none, some, List, [], ◌∷◌, ◌++◌}
use vae_thrift.Prelude.Bytes.{Bytes}
use vae_thrift.Site.{Feeds}
use vae_thrift.Handler.Threads
use vae_thrift.Handler.Threads.{Thread, idle, counting, ended, Shared, move}

module _ (f : Feeds) where
  -- Whether `timed_join(waittime)` finds that a thread has ended.
  abbrev pub is_ended : Thread f → Bool
  is_ended ended = true
  is_ended _ = false

  -- The loop over the threads.
  unfoldable pub join_threads : (ℕ → Thread f) → List ℕ → List ℕ
  join_threads states [] = []
  join_threads states (t ∷ threads) =
      let rest = join_threads states threads in
      elim (is_ended (states t)) [ true ↦ rest | false ↦ t ∷ rest ]

  module _ (test_mode : Bool) where
    -- The calls, the message whose first reload runs, with the number of that call, and the vector
    -- `threads`.
    pub record Bus : Type 0 where
      pub shared : Shared f
      pub pending : Option (Bytes × ℕ)
      pub threads : List ℕ

    pub data Step (bus : Bus) : Bus → Type 0 where
      receive :
          (subdomain : Bytes) (t : ℕ)
          → bus.pending ≡ none
          → bus.shared.threads t ≡ idle
          → Step bus (record bus {
            shared = move f t (counting subdomain) bus.shared;
            pending = some (subdomain, t);
          })
      start :
          (subdomain : Bytes) (t u : ℕ)
          → bus.pending ≡ some (subdomain, t)
          → bus.shared.threads t ≡ ended
          → bus.shared.threads u ≡ idle
          → Step bus (record {
            shared = move f u (counting subdomain) bus.shared;
            pending = none;
            threads = join_threads bus.shared.threads bus.threads ++ (u ∷ []);
          })
      thread_moves :
          (shared' : Shared f)
          → vae_thrift.Handler.Threads.Step f test_mode bus.shared shared'
          → Step bus (record bus { shared = shared' })

    pub data Reach (bus : Bus) : Bus → Type 0 where
      here : Reach bus bus
      next : {bus₁ bus₂ : Bus} → Reach bus bus₁ → Step bus₁ bus₂ → Reach bus bus₂
