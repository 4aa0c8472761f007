-- ===== src/Memcache/Laws.antt =====
-- What the calls do to the pool.
use vae_thrift.Prelude.{ℕ, ◌-◌, ◌==◌, false, ◌<◌, ◌≡◌, refl, [], arith}
use vae_thrift.Prelude.Int.{ℤ}
use vae_thrift.Prelude.Bytes.{Bytes}
use vae_thrift.Pool.{Pool, leased, get_connection}
use vae_thrift.Pool.Laws.{
  IsValid, take_free-total, uses, uses-le-entries, get_connection-Takes,
  free_connection-get_connection,
}
use vae_thrift.Memcache.{Client, returned, or_else, with_connection, get, set, remove}

leases :
    (p : Pool)
    → IsValid p
    → 0 < p.available_connections
    → (con : ℕ) × (q : Pool) × (get_connection p ≡ leased con q)
unfolding get_connection
leases p v h =
    let (con, rest, found) = take_free-total p.conn_pool (omega (arith, v.counted)) in
    let some_free : (p.available_connections == 0) ≡ false = ground arith in
    (
      con,
      record p { conn_pool = rest; available_connections = p.available_connections - 1 },
      rw (get_connection, some_free, found) refl,
    )

module _ (c : Client) where
  with_connection_lem :
      {A : Type 0} (f : ℕ → c.World → A × c.World) (p q : Pool) (con : ℕ) (w : c.World)
      → IsValid p
      → get_connection p ≡ leased con q
      → with_connection c f p w ≡ returned (f con w).0 p (f con w).1
  unfolding with_connection
  with_connection_lem f p q con w v got =
      rw (with_connection, got, free_connection-get_connection p q con v got) refl

  -- While a connection is free, every call runs on a connection that no thread holds, and leaves the
  -- pool as it was, also where libmemcached throws: a failed `get` returns the empty string, a
  -- failed `set` or `remove` returns like one that succeeded.
  pub calls_give_back :
      (p : Pool)
      → IsValid p
      → 0 < p.available_connections
      → (con : ℕ) × (uses con p.conn_pool ≡ 0)
        × ((key : Bytes) (flags : ℤ) (w : c.World)
            → get c key flags p w ≡ returned (or_else [] (c.get con key w).0) p (c.get con key w).1)
        × ((key value : Bytes) (flags expire_interval : ℤ) (w : c.World)
            → set c key value flags expire_interval p w
              ≡ returned tt p (c.set con key value expire_interval flags w).1)
        × ((key : Bytes) (w : c.World) → remove c key p w ≡ returned tt p (c.remove con key w).1)
  unfolding get set remove
  calls_give_back p v h =
      let (con, q, got) = leases p v h in
      let (takes, counter) = get_connection-Takes p q con got in
      (
        con,
        ground (
          arith,
          takes.unused con,
          takes.same con,
          v.distinct con,
          uses-le-entries con q.conn_pool,
        ),
        λ key flags w. with_connection_lem _ p q con w v got,
        λ key value flags expire_interval w. with_connection_lem _ p q con w v got,
        λ key w. with_connection_lem _ p q con w v got,
      )
