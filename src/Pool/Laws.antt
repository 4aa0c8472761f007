-- ===== src/Pool/Laws.antt =====
-- What `getConnection` and `freeConnection` do to a pool whose counter is right.
use vae_thrift.Prelude.{
  ℕ, suc, ◌+◌, ◌-◌, ◌≤◌, ◌<◌, ◌==◌, if◌then◌else◌, ◌≡◌, ◌≢◌, ◌↔◌, refl, false, some, List, [], ◌∷◌,
  arith, Option-cases, Bool-cases, inl, inr,
}
use vae_thrift.Pool.{
  Slot, free, inuse, Pool, waits, leased, throws, take_free, get_connection, put_free,
  free_connection,
}

-- How many entries are free, how many have the pointer, and how many have it in use.
abbrev pub free_count : List (ℕ × Slot) → ℕ
free_count [] = 0
free_count ((c, free) ∷ l) = suc (free_count l)
free_count ((c, inuse) ∷ l) = free_count l

abbrev pub entries : ℕ → List (ℕ × Slot) → ℕ
entries q [] = 0
entries q ((c, slot) ∷ l) = (if c == q then 1 else 0) + entries q l

abbrev pub uses : ℕ → List (ℕ × Slot) → ℕ
uses q [] = 0
uses q ((c, free) ∷ l) = uses q l
uses q ((c, inuse) ∷ l) = (if c == q then 1 else 0) + uses q l

-- The counter is the number of free entries, and no pointer has two entries.
pub record IsValid (p : Pool) : Type 0 where
  pub counted : p.available_connections ≡ free_count p.conn_pool
  pub distinct : (q : ℕ) → entries q p.conn_pool ≤ 1

pub uses-le-entries : (q : ℕ) (l : List (ℕ × Slot)) → uses q l ≤ entries q l
uses-le-entries q [] = omega arith
uses-le-entries q ((c, free) ∷ l) = omega (arith, uses-le-entries q l)
uses-le-entries q ((c, inuse) ∷ l) = omega (arith, uses-le-entries q l)

-- `take_free` finds an entry if one is free.
pub take_free-total :
    (l : List (ℕ × Slot))
    → 0 < free_count l
    → (con : ℕ) × (rest : List (ℕ × Slot)) × (take_free l ≡ some (con, rest))
unfolding take_free
take_free-total [] h = absurd (omega arith)
take_free-total ((c, free) ∷ l) h = (c, (c, inuse) ∷ l, refl)
take_free-total ((c, inuse) ∷ l) h =
    let (con, rest, e) = take_free-total l h in (con, (c, inuse) ∷ rest, rw e)

-- What `take_free` changes: one use more of the pointer found, one free entry less.
pub record Takes (l : List (ℕ × Slot)) (con : ℕ) (rest : List (ℕ × Slot)) : Type 0 where
  pub unused : (q : ℕ) → uses q rest ≡ (if con == q then 1 else 0) + uses q l
  pub same : (q : ℕ) → entries q rest ≡ entries q l
  pub fewer : free_count l ≡ suc (free_count rest)
  pub given_back : (n : ℕ) → entries con l ≤ 1 → put_free con rest n ≡ (l, n + 1)

put_free_absent :
    (con : ℕ) (l : List (ℕ × Slot)) (n : ℕ) → entries con l ≡ 0 → put_free con l n ≡ (l, n)
unfolding put_free
put_free_absent con [] n h = refl
put_free_absent con ((c, slot) ∷ l) n h = ground (arith, put_free_absent con l n)

Takes-cons :
    (c : ℕ) {l tail rest : List (ℕ × Slot)} {found con : ℕ}
    → Takes l found tail
    → con ≡ found
    → rest ≡ (c, inuse) ∷ tail
    → Takes ((c, inuse) ∷ l) con rest
unfolding put_free
Takes-cons c {l} {tail} {rest} {found} {con} t p r = record {
  unused = λ q. ground (arith, t.unused q);
  same = λ q. ground (arith, t.same q);
  fewer = ground (arith, t.fewer);
  given_back = λ n d.
      ground (arith, t.given_back n, t.unused found, t.same found, uses-le-entries found tail);
}

-- The loop of `getConnection` leases one free pointer, and `freeConnection` undoes it.
pub take_free-Takes :
    (l : List (ℕ × Slot)) {con : ℕ} {rest : List (ℕ × Slot)}
    → take_free l ≡ some (con, rest)
    → Takes l con rest
unfolding take_free put_free
take_free-Takes [] h = absurd (ground arith)
take_free-Takes ((c, free) ∷ l) {con} {rest} h = record {
  unused = λ q. ground arith;
  same = λ q. ground arith;
  fewer = ground arith;
  given_back = λ n d. ground (arith, put_free_absent con l (n + 1));
}
take_free-Takes ((c, inuse) ∷ l) {con} {rest} h = elim (Option-cases (take_free l)) [
  | inl e ↦ absurd (ground arith)
  | inr ((found, tail), e) ↦ Takes-cons c (take_free-Takes l e) (ground arith) (ground arith)
]

-- With a right counter a thread waits exactly when every connection is in use, and it never
-- reaches the `throw`.
pub get_connection_cases :
    (p : Pool)
    → IsValid p
    → ((get_connection p ≡ waits) ↔ (free_count p.conn_pool ≡ 0)) × (get_connection p ≢ throws)
unfolding get_connection
get_connection_cases p v = elim (Bool-cases (p.available_connections == 0)) [
  | inl e ↦ ((λ _. ground arith, λ _. ground arith), λ h. ground arith)
  | inr e ↦
      let (con, rest, found) = take_free-total p.conn_pool (ground arith) in
      ((λ h. ground arith, λ h. ground arith), λ h. ground arith)
]

pub get_connection-waits : (p : Pool) → get_connection p ≡ waits → p.available_connections ≡ 0
unfolding get_connection
get_connection-waits p h = ground arith

pub get_connection-Takes :
    (p q : Pool) (con : ℕ)
    → get_connection p ≡ leased con q
    → Takes p.conn_pool con q.conn_pool × (q.available_connections ≡ p.available_connections - 1)
unfolding get_connection
get_connection-Takes p q con h = elim (Option-cases (take_free p.conn_pool)) [
  | inl e ↦ absurd (ground arith)
  | inr ((found, rest), e) ↦ (take_free-Takes p.conn_pool (ground arith), ground arith)
]

-- What `freeConnection` does to a pointer in use that has one entry.
pub record Frees (l : List (ℕ × Slot)) (con n : ℕ) (r : List (ℕ × Slot) × ℕ) : Type 0 where
  pub used : (q : ℕ) → uses q l ≡ (if con == q then 1 else 0) + uses q r.0
  pub same : (q : ℕ) → entries q r.0 ≡ entries q l
  pub more : free_count r.0 ≡ suc (free_count l)
  pub counter : r.1 ≡ n + 1

Frees-here :
    (c : ℕ) {con n : ℕ} {l : List (ℕ × Slot)}
    → c ≡ con
    → entries con l ≡ 0
    → put_free con l (n + 1) ≡ (l, n + 1)
    → Frees ((c, inuse) ∷ l) con n (put_free con ((c, inuse) ∷ l) n)
unfolding put_free
Frees-here c {con} {n} {l} e none_left absent = record {
  used = λ q. ground arith;
  same = λ q. ground arith;
  more = ground arith;
  counter = ground arith;
}

Frees-cons :
    (c : ℕ) (slot : Slot) {con n : ℕ} {l : List (ℕ × Slot)}
    → (c == con) ≡ false
    → Frees l con n (put_free con l n)
    → Frees ((c, slot) ∷ l) con n (put_free con ((c, slot) ∷ l) n)
unfolding put_free
Frees-cons c slot {con} {n} {l} e t = record {
  used = λ q. ground (arith, t.used q);
  same = λ q. ground (arith, t.same q);
  more = ground arith;
  counter = ground arith;
}

pub put_free-Frees :
    (con : ℕ) (l : List (ℕ × Slot)) (n : ℕ)
    → entries con l ≤ 1
    → uses con l ≡ 1
    → Frees l con n (put_free con l n)
unfolding put_free
put_free-Frees con [] n d u = absurd (omega arith)
put_free-Frees con ((c, free) ∷ l) n d u =
    let t : Frees l con n (put_free con l n) = put_free-Frees con l n (omega arith) (omega arith) in
    Frees-cons c free (ground (arith, uses-le-entries con l)) t
put_free-Frees con ((c, inuse) ∷ l) n d u = elim (Bool-cases (c == con)) [
  | inl e ↦
      Frees-here c (ground arith) (ground arith) (put_free_absent con l (n + 1) (ground arith))
  | inr e ↦ Frees-cons c inuse e (put_free-Frees con l n (ground arith) (ground arith))
]

-- In a pool with a right counter and one entry for each pointer, a lease that is given back leaves
-- the pool as it was: the same connection is free again, and the counter is back.
pub free_connection-get_connection :
    (p q : Pool) (con : ℕ) → IsValid p → get_connection p ≡ leased con q → free_connection con q ≡ p
unfolding free_connection
free_connection-get_connection p q con v got =
    let (t, counter) = get_connection-Takes p q con got in
    ground (arith, t.given_back q.available_connections (v.distinct con), t.fewer, v.counted)
