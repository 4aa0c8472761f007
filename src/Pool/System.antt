-- ===== src/Pool/System.antt =====
-- The threads that share a pool, as interleaved steps: each step is one critical section under
-- `poolMutex`. A lease is a `shared_ptr` whose deleter runs `freeConnection` once, when its last
-- owner goes. A waiting thread sleeps in `cond.wait`; a woken one has to take the mutex again and
-- tests the counter again, so a thread that comes in between may be served first.
use vae_thrift.Prelude.{
  ℕ, zero, suc, ◌+◌, ◌≤◌, ◌==◌, if◌then◌else◌, ◌≡◌, ◌≢◌, ◌↔◌, refl, ◌⊎◌, inl, inr, List, [], ◌∷◌,
  ◌++◌, arith, length, length-append,
}
use vae_thrift.Pool.{Pool, waits, leased, throws, get_connection, put_free, free_connection}
use vae_thrift.Pool.Laws.{
  IsValid, uses, Frees, get_connection_cases, uses-le-entries, get_connection-Takes,
  get_connection-waits, put_free-Frees,
}

pub record System : Type 0 where
  pub pool : Pool
  pub leases : List ℕ
  pub waiting : ℕ
  pub woken : ℕ

-- `cond.notify_one()`: one sleeping thread, if there is one, becomes runnable.
wake : ℕ → System → System
wake zero s = s
wake (suc w) s = record s { waiting = w; woken = suc s.woken }

unfoldable pub notify_one : System → System
unfolding wake
notify_one s = wake s.waiting s

-- The end of a lease.
unfoldable pub give_back : ℕ → List ℕ → System → System
unfolding notify_one
give_back con leases s =
    notify_one (record s { pool = free_connection con s.pool; leases = leases })

pub data Step (s : System) : System → Type 0 where
  enter :
      (con : ℕ) (q : Pool)
      → get_connection s.pool ≡ leased con q
      → Step s (record s { pool = q; leases = con ∷ s.leases })
  block : get_connection s.pool ≡ waits → Step s (record s { waiting = suc s.waiting })
  resume :
      (con k : ℕ) (q : Pool)
      → s.woken ≡ suc k
      → get_connection s.pool ≡ leased con q
      → Step s (record s { pool = q; leases = con ∷ s.leases; woken = k })
  block_again :
      (k : ℕ)
      → s.woken ≡ suc k
      → get_connection s.pool ≡ waits
      → Step s (record s { waiting = suc s.waiting; woken = k })
  spurious : (w : ℕ) → s.waiting ≡ suc w → Step s (record s { waiting = w; woken = suc s.woken })
  finish :
      (before after : List ℕ) (con : ℕ)
      → s.leases ≡ before ++ (con ∷ after)
      → Step s (give_back con (before ++ after) s)

pub data Reach (s : System) : System → Type 0 where
  here : Reach s s
  next : {t u : System} → Reach s t → Step t u → Reach s u

abbrev pub count : ℕ → List ℕ → ℕ
count q [] = 0
count q (c ∷ l) = (if c == q then 1 else 0) + count q l

count-append : (q : ℕ) (l r : List ℕ) → count q (l ++ r) ≡ count q l + count q r
count-append q [] r = omega arith
count-append q (c ∷ l) r = omega (arith, count-append q l r)

-- `n` connections in all: the leases are the entries in use, each once, and the others are free.
pub record IsSound (n : ℕ) (p : Pool) (leases : List ℕ) : Type 0 where
  pub valid : IsValid p
  pub held : (q : ℕ) → uses q p.conn_pool ≡ count q leases
  pub conserved : p.available_connections + length leases ≡ n

-- No wake-up is lost: while a thread sleeps, there are not more free connections than threads on
-- their way to them.
abbrev pub IsAwake : System → Type 0
IsAwake s = (s.waiting ≡ 0) ⊎ (s.pool.available_connections ≤ s.woken)

pub record IsSafe (n : ℕ) (s : System) : Type 0 where
  pub sound : IsSound n s.pool s.leases
  pub awake : IsAwake s

lease-IsSound :
    {n : ℕ} (p q : Pool) (con : ℕ) (leases : List ℕ)
    → get_connection p ≡ leased con q
    → IsSound n p leases
    → IsSound n q (con ∷ leases) × (p.available_connections ≡ q.available_connections + 1)
lease-IsSound p q con leases got v =
    let (t, counter) = get_connection-Takes p q con got in
    (
      record {
        valid = record {
          counted = omega (arith, t.fewer, v.valid.counted);
          distinct = λ r. omega (arith, t.same r, v.valid.distinct r);
        };
        held = λ r. omega (arith, t.unused r, v.held r);
        conserved = omega (arith, t.fewer, v.valid.counted, v.conserved);
      },
      omega (arith, t.fewer, v.valid.counted),
    )

free-IsSound :
    {n : ℕ} (p : Pool) (con : ℕ) (before after : List ℕ)
    → IsSound n p (before ++ (con ∷ after))
    → IsSound n (free_connection con p) (before ++ after)
      × ((free_connection con p).available_connections ≡ p.available_connections + 1)
unfolding free_connection
free-IsSound {n} p con before after v =
    let used : uses con p.conn_pool ≡ 1 = ground (
      arith,
      v.held con,
      count-append con before (con ∷ after),
      v.valid.distinct con,
      uses-le-entries con p.conn_pool,
    ) in
    let f : Frees p.conn_pool con p.available_connections
        (put_free con p.conn_pool p.available_connections) =
      put_free-Frees con p.conn_pool p.available_connections (v.valid.distinct con) used in
    (
      record {
        valid = record {
          counted = omega (arith, f.more, f.counter, v.valid.counted);
          distinct = λ r. omega (arith, f.same r, v.valid.distinct r);
        };
        held = λ r. omega (
          arith,
          f.used r,
          v.held r,
          count-append r before (con ∷ after),
          count-append r before after,
        );
        conserved = omega (
          arith,
          f.counter,
          v.conserved,
          length-append before (con ∷ after),
          length-append before after,
        );
      },
      f.counter,
    )

wake-IsSafe :
    {n : ℕ} (w : ℕ) (s : System)
    → s.waiting ≡ w
    → IsSound n s.pool s.leases
    → (s.waiting ≡ 0) ⊎ (s.pool.available_connections ≤ s.woken + 1)
    → IsSafe n (wake w s)
unfolding wake
wake-IsSafe zero s e sound h = record { sound = sound; awake = inl e }
wake-IsSafe (suc w) s e sound h = record { sound = sound; awake = inr (ground arith) }

give_back-IsSafe :
    {n : ℕ} (con : ℕ) (before after : List ℕ) (s : System)
    → s.leases ≡ before ++ (con ∷ after)
    → IsSafe n s
    → IsSafe n (give_back con (before ++ after) s)
unfolding give_back
give_back-IsSafe {n} con before after s e v =
    let (sound, more) = free-IsSound s.pool con before after (rw e at v.sound) in
    wake-IsSafe s.waiting _ refl sound (ground arith)

-- Every step of every thread keeps the pool safe.
pub Step-IsSafe : {n : ℕ} {s t : System} → Step s t → IsSafe n s → IsSafe n t
Step-IsSafe (enter con q got) v =
    let (sound, less) = lease-IsSound _ q con _ got v.sound in
    record { sound = sound; awake = ground arith }
Step-IsSafe (block got) v = record {
  sound = v.sound;
  awake = inr (omega (arith, get_connection-waits _ got));
}
Step-IsSafe (resume con k q more got) v =
    let (sound, less) = lease-IsSound _ q con _ got v.sound in
    record { sound = sound; awake = ground arith }
Step-IsSafe (block_again k more got) v = record {
  sound = v.sound;
  awake = inr (omega (arith, get_connection-waits _ got));
}
Step-IsSafe (spurious w more) v = record { sound = v.sound; awake = ground arith }
Step-IsSafe (finish before after con e) v = give_back-IsSafe con before after _ e v

pub Reach-IsSafe : {n : ℕ} {s t : System} → IsSafe n s → Reach s t → IsSafe n t
Reach-IsSafe v here = v
Reach-IsSafe v (next r st) = Step-IsSafe st (Reach-IsSafe v r)

-- No thread has made a step yet.
abbrev pub start : Pool → System
start p = record { pool = p; leases = []; waiting = 0; woken = 0 }

pub start-IsSafe :
    (p : Pool)
    → IsValid p
    → ((q : ℕ) → uses q p.conn_pool ≡ 0)
    → IsSafe p.available_connections (start p)
start-IsSafe p v unused = record {
  sound = record { valid = v; held = unused; conserved = omega arith };
  awake = inl refl;
}

-- From a pool with a right counter whose connections are all free, whatever the threads do: no
-- connection is leased twice at a time, none is lost, and a thread sleeps only while every free
-- connection has a woken thread on its way to it.
pub lease_exclusive :
    (p : Pool) (s : System)
    → IsValid p
    → ((q : ℕ) → uses q p.conn_pool ≡ 0)
    → Reach (start p) s
    → ((q : ℕ) → count q s.leases ≤ 1)
      × (s.pool.available_connections + length s.leases ≡ p.available_connections)
      × ((s.waiting ≡ 0) ⊎ (s.pool.available_connections ≤ s.woken))
lease_exclusive p s v unused r =
    let safe : IsSafe p.available_connections s = Reach-IsSafe (start-IsSafe p v unused) r in
    (
      λ q. omega (
        arith,
        safe.sound.held q,
        uses-le-entries q s.pool.conn_pool,
        safe.sound.valid.distinct q,
      ),
      safe.sound.conserved,
      safe.awake,
    )

-- In a state that threads reach from a pool with a right counter whose connections are all free, a
-- thread that asks for a connection waits exactly when all are leased, and never gets to the `throw`
-- behind the loop.
pub get_connection_reached :
    (p : Pool) (s : System)
    → IsValid p
    → ((q : ℕ) → uses q p.conn_pool ≡ 0)
    → Reach (start p) s
    → ((get_connection s.pool ≡ waits) ↔ (length s.leases ≡ p.available_connections))
      × (get_connection s.pool ≢ throws)
get_connection_reached p s v unused r =
    let safe : IsSafe p.available_connections s = Reach-IsSafe (start-IsSafe p v unused) r in
    let ((waits_none, none_waits), never) = get_connection_cases s.pool safe.sound.valid in
    (
      (
        λ h. omega (arith, waits_none h, safe.sound.valid.counted, safe.sound.conserved),
        λ h. none_waits (omega (arith, safe.sound.valid.counted, safe.sound.conserved)),
      ),
      never,
    )
