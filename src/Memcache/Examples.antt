-- ===== src/Memcache/Examples.antt =====
-- A server that holds one value, and one that is down.
use vae_thrift.Prelude.{ℕ, ◌≡◌, refl, none, some, [], ◌∷◌, ◌==◌, if◌then◌else◌, arith}
use vae_thrift.Prelude.Int.{ℤ, pos}
use vae_thrift.Prelude.Bytes.{Bytes, bytes}
use vae_thrift.Pool.{Pool, free, inuse, get_connection, take_free, free_connection, put_free}
use vae_thrift.Pool.Laws.{IsValid, uses}
use vae_thrift.Memcache.{Client, returned, or_else, with_connection, get, set, remove}
use vae_thrift.Memcache.Laws.{calls_give_back}

-- The server behind connection 7 is down.
abbrev servers : Client
servers = record {
  World = Bytes;
  get = λ con key w. if con == 7 then (none, w) else (some w, w);
  set = λ con key value expire_interval flags w. if con == 7 then (none, w) else (some tt, value);
  remove = λ con key w. if con == 7 then (none, w) else (some tt, []);
}

abbrev two : Pool
two = record { conn_pool = (5, inuse) ∷ (7, free) ∷ []; available_connections = 1 }

two-IsValid : IsValid two
two-IsValid = record { counted = refl; distinct = λ q. ground arith }

down : get servers (bytes "k") (pos 0) two (bytes "v") ≡ returned [] two (bytes "v")
unfolding get with_connection get_connection take_free free_connection put_free
down = refl

calls_give_back_example :
    (con : ℕ) × (uses con two.conn_pool ≡ 0)
    × ((key : Bytes) (flags : ℤ) (w : Bytes)
        → get servers key flags two w
          ≡ returned (or_else [] (servers.get con key w).0) two (servers.get con key w).1)
    × ((key value : Bytes) (flags expire_interval : ℤ) (w : Bytes)
        → set servers key value flags expire_interval two w
          ≡ returned tt two (servers.set con key value expire_interval flags w).1)
    × ((key : Bytes) (w : Bytes)
        → remove servers key two w ≡ returned tt two (servers.remove con key w).1)
calls_give_back_example = calls_give_back servers two two-IsValid (omega arith)
