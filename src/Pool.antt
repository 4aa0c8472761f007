-- ===== src/Pool.antt =====
-- The connection pools of cpp/mysql_proxy.cpp and cpp/memcache_proxy.cpp. The two classes have the
-- same `getConnection` and `freeConnection`; they differ in the number of connections and in how
-- one is opened. A connection pointer is its address, and the pool lists its entries in the order
-- in which the `std::map` iterates over them.
pub mod Laws
pub mod Init
pub mod System
mod Examples
use vae_thrift.Prelude.{
  ℕ, zero, suc, ◌+◌, ◌-◌, ◌==◌, if◌then◌else◌, Option, none, some, List, [], ◌∷◌,
}

-- POOL_FREE and POOL_INUSE
pub data Slot : Type 0 where
  free inuse : Slot

pub record Pool : Type 0 where
  pub conn_pool : List (ℕ × Slot)
  pub available_connections : ℕ

-- What `getConnection` does at one pass of its loop: the thread waits on the condition variable,
-- it has a connection, or it reaches the `throw`.
pub data Got : Type 0 where
  waits : Got
  leased : ℕ → Pool → Got
  throws : Got

-- The `for` loop of `getConnection`: the first free entry becomes used.
unfoldable pub take_free : List (ℕ × Slot) → Option (ℕ × List (ℕ × Slot))
take_free [] = none
take_free ((con, free) ∷ l) = some (con, (con, inuse) ∷ l)
take_free ((con, inuse) ∷ l) = elim (take_free l) [
  | none ↦ none
  | some (found, rest) ↦ some (found, (con, inuse) ∷ rest)
]

unfoldable pub get_connection : Pool → Got
get_connection p = if p.available_connections == 0 then waits else elim (take_free p.conn_pool) [
  | none ↦ throws
  | some (con, rest) ↦
      leased con
        (record p { conn_pool = rest; available_connections = p.available_connections - 1 })
]

-- The loop of `freeConnection`, over the entries left and the counter.
unfoldable pub put_free : ℕ → List (ℕ × Slot) → ℕ → List (ℕ × Slot) × ℕ
put_free con [] n = ([], n)
put_free con ((c, slot) ∷ l) n =
    let rest = put_free con l (if c == con then n + 1 else n) in
    ((c, if c == con then free else slot) ∷ rest.0, rest.1)

-- `freeConnection`, without the notification, which is a step of `System`.
unfoldable pub free_connection : ℕ → Pool → Pool
free_connection con p =
    let freed = put_free con p.conn_pool p.available_connections in
    record { conn_pool = freed.0; available_connections = freed.1 }
