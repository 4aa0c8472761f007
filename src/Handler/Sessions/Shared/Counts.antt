-- ===== src/Handler/Sessions/Shared/Counts.antt =====
-- How many pointers to a session there are, in the map and in the threads.
use vae_thrift.Prelude.{
  ℕ, zero, suc, ◌+◌, ◌≡◌, ◌≤◌, ◌<◌, refl, ◌==◌, if◌then◌else◌, Option, none, some, [], ◌∷◌, arith,
  ℕ_discrete,
}
use vae_thrift.Prelude.Int.{ℤ}
use vae_thrift.Prelude.Eq.{int_eq}
use vae_thrift.Prelude.Map.{Map, find, assign, erase, find-assign, find-erase}
use vae_thrift.Handler.Sessions.Reaper.{IsKeyed}

-- 1 where the pointer is to `a`.
abbrev pub to : ℕ → Option ℕ → ℕ
to a none = 0
to a (some b) = if a == b then 1 else 0

unfoldable pub entries : ℕ → Map ℤ ℕ → ℕ
entries a [] = 0
entries a ((id, b) ∷ m) = to a (some b) + entries a m

-- The first `n` threads.
unfoldable pub holders : ℕ → ℕ → (ℕ → Option ℕ) → ℕ
holders a zero held = 0
holders a (suc n) held = to a (held n) + holders a n held

pub holders-set_other :
    (a n : ℕ) (held : ℕ → Option ℕ) (t : ℕ) (o : Option ℕ)
    → n ≤ t
    → holders a n (λ u. if t == u then o else held u) ≡ holders a n held
unfolding holders
holders-set_other a zero held t o far = refl
holders-set_other a (suc n) held t o far = ground (arith, holders-set_other a n held t o)

pub holders-set :
    (a n : ℕ) (held : ℕ → Option ℕ) (t : ℕ) (o : Option ℕ)
    → t < n
    → holders a n (λ u. if t == u then o else held u) + to a (held t) ≡ holders a n held + to a o
unfolding holders
holders-set a zero held t o near = absurd (omega arith)
holders-set a (suc n) held t o near = elim (ℕ_discrete t n) [
  | yes e ↦ ground (arith, holders-set_other a n held t o)
  | no ne ↦ ground (arith, holders-set a n held t o)
]

pub to-holders : (a n : ℕ) (held : ℕ → Option ℕ) (t : ℕ) → t < n → to a (held t) ≤ holders a n held
unfolding holders
to-holders a zero held t near = absurd (omega arith)
to-holders a (suc n) held t near = elim (ℕ_discrete t n) [
  | yes e ↦ ground arith
  | no ne ↦ ground (arith, to-holders a n held t)
]

pub entries-assign :
    (a : ℕ) (id : ℤ) (b : ℕ) (m : Map ℤ ℕ)
    → find id m ≡ none
    → entries a (assign id b m) ≡ entries a m + to a (some b)
unfolding entries find assign
entries-assign a id b [] h = omega arith
entries-assign a id b ((k, c) ∷ m) h = ground (arith, entries-assign a id b m)

pub entries-erase_absent :
    (a : ℕ) (id : ℤ) (m : Map ℤ ℕ) → find id m ≡ none → entries a (erase id m) ≡ entries a m
unfolding entries find erase
entries-erase_absent a id [] h = refl
entries-erase_absent a id ((k, c) ∷ m) h = ground (arith, entries-erase_absent a id m)

pub entries-erase :
    (a : ℕ) (id : ℤ) (m : Map ℤ ℕ)
    → IsKeyed m
    → entries a (erase id m) + to a (find id m) ≡ entries a m
unfolding entries find erase IsKeyed
entries-erase a id [] h = refl
entries-erase a id ((k, c) ∷ m) (fresh, keyed) =
    ground (arith, entries-erase a id m keyed, entries-erase_absent a id m)

pub entries-find : (a : ℕ) (id : ℤ) (m : Map ℤ ℕ) → to a (find id m) ≤ entries a m
unfolding entries find
entries-find a id [] = omega arith
entries-find a id ((k, c) ∷ m) = ground (arith, entries-find a id m)

pub erase-IsKeyed : (id : ℤ) (m : Map ℤ ℕ) → IsKeyed m → IsKeyed (erase id m)
unfolding IsKeyed erase
erase-IsKeyed id [] h = tt
erase-IsKeyed id ((k, c) ∷ m) (fresh, keyed) =
    ground (arith, erase-IsKeyed id m keyed, find-erase id k m)

pub assign-IsKeyed : (id : ℤ) (b : ℕ) (m : Map ℤ ℕ) → IsKeyed m → IsKeyed (assign id b m)
unfolding IsKeyed assign find
assign-IsKeyed id b [] h = (refl, tt)
assign-IsKeyed id b ((k, c) ∷ m) (fresh, keyed) =
    ground (arith, assign-IsKeyed id b m keyed, find-assign id k b m)
