-- ===== src/Memcache.antt =====
-- The calls of cpp/memcache_proxy.cpp on memcache, each on a connection of the pool. What libmemcached
-- does on a connection is the interface `Client`.
pub mod Laws
mod Examples
use vae_thrift.Prelude.{ℕ, Option, none, some, List, []}
use vae_thrift.Prelude.Int.{ℤ}
use vae_thrift.Prelude.Bytes.{Bytes}
use vae_thrift.Pool.{Pool, waits, leased, throws, get_connection, free_connection}

-- The operations of a connection. `none` is a `std::runtime_error`.
pub record Client : Type 1 where
  pub World : Type 0
  pub get : ℕ → Bytes → World → Option Bytes × World
  pub set : ℕ → Bytes → Bytes → ℤ → ℤ → World → Option (Unit {0}) × World
  pub remove : ℕ → Bytes → World → Option (Unit {0}) × World

-- What a call does: it waits for a connection, it throws, or it returns with an answer.
pub data Called (World : Type 0) (A : Type 0) : Type 0 where
  blocked : Called World A
  thrown : Called World A
  returned : A → Pool → World → Called World A

-- What is left of an operation behind its `catch`.
abbrev pub or_else {ℓ} : {A : Type ℓ} → A → Option A → A
or_else otherwise none = otherwise
or_else otherwise (some a) = a

module _ (c : Client) where
  open c use {World}

  -- A call holds its connection in a `shared_ptr` whose deleter is `freeConnection`.
  unfoldable pub with_connection :
      {A : Type 0} → (ℕ → World → A × World) → Pool → World → Called World A
  with_connection f p w = elim (get_connection p) [
    | waits ↦ blocked
    | throws ↦ thrown
    | leased con q ↦ let (a, w') = f con w in returned a (free_connection con q) w'
  ]

  -- `MemcacheProxy::get`, which does not use `flags`.
  unfoldable pub get : Bytes → ℤ → Pool → World → Called World Bytes
  get key flags =
      with_connection λ con w. let (value, w') = c.get con key w in (or_else [] value, w')

  unfoldable pub set : Bytes → Bytes → ℤ → ℤ → Pool → World → Called World (Unit {0})
  set key value flags expire_interval =
      with_connection λ con w.
        let (done, w') = c.set con key value expire_interval flags w in (or_else tt done, w')

  unfoldable pub remove : Bytes → Pool → World → Called World (Unit {0})
  remove key = with_connection λ con w. let (done, w') = c.remove con key w in (or_else tt done, w')
