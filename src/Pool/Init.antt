-- ===== src/Pool/Init.antt =====
-- The constructors `MysqlProxy::MysqlProxy` and `MemcacheProxy::MemcacheProxy`, which open the
-- connections of a pool. The drivers are parameters: `Driver` is the MySQL connector, and a
-- function gives the addresses of the `Memcache` objects that `new` allocates.
use mathlib.Core.Path.{subst}
use native.Mathlib.Nat.{add-zero, zero-add}
use vae_thrift.Prelude.{
  ℕ, zero, suc, ◌+◌, ◌≤◌, ◌<◌, ◌==◌, ltb, if◌then◌else◌, ◌≡◌, refl, ◌∙◌, Bool, Option, none, some,
  List, [], ◌∷◌, arith, Bool-cases, inl, inr,
}
use vae_thrift.Pool.{Slot, free, inuse, Pool}
use vae_thrift.Pool.Laws.{IsValid, free_count, entries, uses}

-- `connPool[con] = POOL_FREE`: the map keeps its entries in the order of the pointers.
unfoldable pub insert_free : ℕ → List (ℕ × Slot) → List (ℕ × Slot)
insert_free con [] = (con, free) ∷ []
insert_free con ((c, slot) ∷ l) =
    if con == c
    then (c, free) ∷ l
    else if ltb con c
    then (con, free) ∷ (c, slot) ∷ l
    else (c, slot) ∷ insert_free con l

unfoldable pub add_connection : Option ℕ → Pool → Pool
add_connection none p = p
add_connection (some con) p = record {
  conn_pool = insert_free con p.conn_pool;
  available_connections = p.available_connections + 1;
}

abbrev pub empty : Pool
empty = record { conn_pool = []; available_connections = 0 }

-- The loop of both constructors, from round `i` on; `create` is `createConnection` at a round.
unfoldable pub open_connections : (ℕ → Option ℕ) → ℕ → ℕ → Pool → Pool
open_connections create zero i p = p
open_connections create (suc rounds) i p =
    open_connections create rounds (i + 1) (add_connection (create i) p)

-- The MySQL driver at each round: the connection that `driver->connect` returns, or `none` if it
-- throws, and whether `setSchema` throws on it.
pub record Driver : Type 0 where
  pub connect : ℕ → Option ℕ
  pub set_schema : ℕ → Bool

-- `MysqlProxy::createConnection`
unfoldable pub create_connection : Driver → ℕ → Option ℕ
create_connection d i = elim (d.connect i) [
  | none ↦ none
  | some con ↦ if d.set_schema con then some con else none
]

abbrev pub num_connections : ℕ
num_connections = 8

abbrev pub memcache_num_connections : ℕ
memcache_num_connections = 16

unfoldable pub mysql_pool : Driver → Pool
mysql_pool d = open_connections (create_connection d) num_connections 0 empty

unfoldable pub memcache_pool : (ℕ → ℕ) → Pool
memcache_pool new_memcache =
    open_connections (λ i. some (new_memcache i)) memcache_num_connections 0 empty

entries-insert_free :
    (con q : ℕ) (l : List (ℕ × Slot))
    → entries con l ≡ 0
    → entries q (insert_free con l) ≡ (if con == q then 1 else 0) + entries q l
unfolding insert_free
entries-insert_free con q [] h = refl
entries-insert_free con q ((c, slot) ∷ l) h = ground (arith, entries-insert_free con q l)

uses-insert_free :
    (con q : ℕ) (l : List (ℕ × Slot)) → entries con l ≡ 0 → uses q (insert_free con l) ≡ uses q l
unfolding insert_free
uses-insert_free con q [] h = refl
uses-insert_free con q ((c, free) ∷ l) h = ground (arith, uses-insert_free con q l)
uses-insert_free con q ((c, inuse) ∷ l) h = ground (arith, uses-insert_free con q l)

free_count-insert_free :
    (con : ℕ) (l : List (ℕ × Slot))
    → entries con l ≡ 0
    → free_count (insert_free con l) ≡ suc (free_count l)
unfolding insert_free
free_count-insert_free con [] h = refl
free_count-insert_free con ((c, free) ∷ l) h = ground (arith, free_count-insert_free con l)
free_count-insert_free con ((c, inuse) ∷ l) h = ground (arith, free_count-insert_free con l)

-- How many of the rounds opened a connection.
abbrev pub opened : (ℕ → Option ℕ) → ℕ → ℕ → ℕ
opened create zero i = 0
opened create (suc rounds) i =
    elim (create i) [ none ↦ 0 | some con ↦ 1 ] + opened create rounds (i + 1)

module _ (create : ℕ → Option ℕ)
    (distinct : (i j con : ℕ) → create i ≡ some con → create j ≡ some con → i ≡ j) where
  -- After the rounds below `i`: a right counter, no connection in use, and only connections that
  -- these rounds opened.
  record IsOpened (i : ℕ) (p : Pool) : Type 0 where
    valid : IsValid p
    unused : (q : ℕ) → uses q p.conn_pool ≡ 0
    from_round : (q : ℕ) → 0 < entries q p.conn_pool → (j : ℕ) × (j < i) × (create j ≡ some q)

  fresh : (i con : ℕ) (p : Pool) → IsOpened i p → create i ≡ some con → entries con p.conn_pool ≡ 0
  fresh i con p v e = elim (Bool-cases (ltb 0 (entries con p.conn_pool))) [
    | inl there ↦
        let (j, below, from) = v.from_round con (ground arith) in
        absurd (omega (arith, distinct i j con e from))
    | inr gone ↦ ground arith
  ]

  add_connection-IsOpened :
      (i : ℕ) (p : Pool) (o : Option ℕ)
      → create i ≡ o
      → IsOpened i p
      → IsOpened (i + 1) (add_connection o p)
  unfolding add_connection
  add_connection-IsOpened i p none e v = record {
    valid = v.valid;
    unused = v.unused;
    from_round = λ q h. let (j, below, from) = v.from_round q h in (j, omega arith, from);
  }
  add_connection-IsOpened i p (some con) e v =
      let new : entries con p.conn_pool ≡ 0 = fresh i con p v e in
      record {
        valid = record {
          counted = omega (arith, free_count-insert_free con p.conn_pool new, v.valid.counted);
          distinct =
              λ q. ground (arith, entries-insert_free con q p.conn_pool new, v.valid.distinct q);
        };
        unused = λ q. omega (arith, uses-insert_free con q p.conn_pool new, v.unused q);
        from_round = λ q h. elim (Bool-cases (con == q)) [
          | inl same ↦ (i, omega arith, ground arith)
          | inr other ↦
              let (j, below, from) =
                v.from_round q (ground (arith, entries-insert_free con q p.conn_pool new)) in
              (j, omega arith, from)
        ];
      }

  open_connections-IsOpened :
      (rounds i : ℕ) (p : Pool)
      → IsOpened i p
      → IsOpened (i + rounds) (open_connections create rounds i p)
  unfolding open_connections
  open_connections-IsOpened zero i p v = rw add-zero v
  open_connections-IsOpened (suc rounds) i p v =
      subst (λ n. IsOpened n (open_connections create (suc rounds) i p)) (omega arith)
        (open_connections-IsOpened rounds (i + 1) _ (add_connection-IsOpened i p (create i) refl v))

  available-open_connections :
      (rounds i : ℕ) (p : Pool)
      → (open_connections create rounds i p).available_connections
        ≡ p.available_connections + opened create rounds i
  unfolding open_connections add_connection
  available-open_connections zero i p = omega arith
  available-open_connections (suc rounds) i p =
      ground (arith, available-open_connections rounds (i + 1) (add_connection (create i) p))

  -- If the driver never hands out the same pointer twice, a constructor builds a pool with a right
  -- counter, no connection in use, and as many free connections as rounds that opened one.
  pub open_connections-IsValid :
      (rounds : ℕ)
      → let p = open_connections create rounds 0 empty in
        IsValid p
        × ((q : ℕ) → uses q p.conn_pool ≡ 0)
        × (p.available_connections ≡ opened create rounds 0)
  open_connections-IsValid rounds =
      let v : IsOpened (0 + rounds) (open_connections create rounds 0 empty) =
        open_connections-IsOpened rounds 0 empty (record {
          valid = record { counted = refl; distinct = λ q. omega arith };
          unused = λ q. refl;
          from_round = λ q h. absurd (omega arith);
        }) in
      (v.valid, v.unused, available-open_connections rounds 0 empty ∙ zero-add _)

connect_of_create :
    (d : Driver) (i con : ℕ) → create_connection d i ≡ some con → d.connect i ≡ some con
unfolding create_connection
connect_of_create d i con p = ground arith

opened-le : (create : ℕ → Option ℕ) (rounds i : ℕ) → opened create rounds i ≤ rounds
opened-le create zero i = omega arith
opened-le create (suc rounds) i = ground (arith, opened-le create rounds (i + 1))

opened_all : (f : ℕ → ℕ) (rounds i : ℕ) → opened (λ j. some (f j)) rounds i ≡ rounds
opened_all f zero i = refl
opened_all f (suc rounds) i = omega (arith, opened_all f rounds (i + 1))

-- If the connector never returns the same pointer twice, the constructor of `MysqlProxy` builds a
-- pool with a right counter and no connection in use, of at most NUM_CONNECTIONS connections: one
-- for each round in which neither `connect` nor `setSchema` throws.
pub mysql_pool-IsValid :
    (d : Driver)
    → ((i j con : ℕ) → d.connect i ≡ some con → d.connect j ≡ some con → i ≡ j)
    → IsValid (mysql_pool d)
      × ((q : ℕ) → uses q (mysql_pool d).conn_pool ≡ 0)
      × ((mysql_pool d).available_connections ≡ opened (create_connection d) num_connections 0)
      × ((mysql_pool d).available_connections ≤ num_connections)
unfolding mysql_pool
mysql_pool-IsValid d distinct =
    let (v, unused, n) =
      open_connections-IsValid (create_connection d)
        (λ i j con p q.
          distinct i j con (connect_of_create d i con p) (connect_of_create d j con q))
        num_connections in
    (v, unused, n, omega (arith, n, opened-le (create_connection d) num_connections 0))

-- If `new` never returns the same pointer twice, the constructor of `MemcacheProxy` builds a pool
-- with a right counter, no connection in use, and MEMCACHE_NUM_CONNECTIONS free connections.
pub memcache_pool-IsValid :
    (new_memcache : ℕ → ℕ)
    → ((i j : ℕ) → new_memcache i ≡ new_memcache j → i ≡ j)
    → IsValid (memcache_pool new_memcache)
      × ((q : ℕ) → uses q (memcache_pool new_memcache).conn_pool ≡ 0)
      × ((memcache_pool new_memcache).available_connections ≡ memcache_num_connections)
unfolding memcache_pool
memcache_pool-IsValid new_memcache distinct =
    let (v, unused, n) =
      open_connections-IsValid (λ i. some (new_memcache i))
        (λ i j con p q. distinct i j (ground arith)) memcache_num_connections in
    (v, unused, n ∙ opened_all new_memcache memcache_num_connections 0)
