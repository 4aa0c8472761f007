-- ===== src/Pool/Examples.antt =====
-- Tests of the pools, and the theorems at concrete inputs.
use vae_thrift.Prelude.{
  ℕ, ◌+◌, ◌≤◌, ◌≡◌, refl, ◌⊎◌, true, false, ◌==◌, some, none, [], ◌∷◌, arith, if◌then◌else◌, length,
}
use vae_thrift.Pool.{Pool, free, inuse, take_free, get_connection, leased}
use vae_thrift.Pool.Laws.{IsValid}
use vae_thrift.Pool.Init.{Driver, mysql_pool, create_connection, open_connections, add_connection}
use vae_thrift.Pool.System.{System, Step, Reach, start, count, lease_exclusive}

-- The third round cannot connect, and the fifth cannot select its database.
abbrev flaky : Driver
flaky = record {
  connect = λ i. if i == 2 then none else some (100 + i);
  set_schema = λ i. if i == 104 then false else true;
}

flaky_pool : (mysql_pool flaky).available_connections ≡ 6
unfolding mysql_pool open_connections create_connection add_connection
flaky_pool = refl

abbrev two : Pool
two = record { conn_pool = (7, free) ∷ (9, free) ∷ []; available_connections = 2 }

abbrev one_leased : Pool
one_leased = record { conn_pool = (7, inuse) ∷ (9, free) ∷ []; available_connections = 1 }

two-IsValid : IsValid two
two-IsValid = record { counted = refl; distinct = λ q. ground arith }

lease_first : get_connection two ≡ leased 7 one_leased
unfolding get_connection take_free
lease_first = refl

flaky_distinct : (i j con : ℕ) → flaky.connect i ≡ some con → flaky.connect j ≡ some con → i ≡ j
flaky_distinct i j con p q = ground arith

abbrev one_waits : System
one_waits = record {
  pool = record { conn_pool = (7, inuse) ∷ (9, inuse) ∷ []; available_connections = 0 };
  leases = 9 ∷ 7 ∷ [];
  waiting = 1;
  woken = 0;
}

one_waits_reached : Reach (start two) one_waits
unfolding get_connection take_free
one_waits_reached =
    Reach.next
      (Reach.next (Reach.next Reach.here (Step.enter 7 one_leased refl))
        (Step.enter 9 one_waits.pool refl))
      (Step.block refl)

lease_exclusive_example :
    ((q : ℕ) → count q one_waits.leases ≤ 1)
    × (one_waits.pool.available_connections + length one_waits.leases ≡ two.available_connections)
    × ((one_waits.waiting ≡ 0) ⊎ (one_waits.pool.available_connections ≤ one_waits.woken))
lease_exclusive_example = lease_exclusive two one_waits two-IsValid (λ q. refl) one_waits_reached
