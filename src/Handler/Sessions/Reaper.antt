-- ===== src/Handler/Sessions/Reaper.antt =====
-- One round of the reaper's loop: it closes the sessions that are too old.
use vae_thrift.Prelude.{
  ℕ, ◌+◌, ◌≤◌, ◌<◌, ◌≡◌, refl, if◌then◌else◌, Bool, ltb, Option, none, some, [], ◌∷◌, arith,
}
use vae_thrift.Prelude.Int.{ℤ}
use vae_thrift.Prelude.Eq.{int_eq}
use vae_thrift.Prelude.Map.{Map, find}
use vae_thrift.Session.{Responses, Session}

abbrev pub session_reap_time : ℕ
session_reap_time = 62

-- A map as `std::map` keeps it: no key stands in it twice.
unfoldable pub IsKeyed : {V : Type 0} → Map ℤ V → Type 0
IsKeyed [] = Unit {0}
IsKeyed ((k, v) ∷ m) = (find k m ≡ none) × IsKeyed m

module _ {Site : Type 0} (r : Responses Site) where
  -- `(now - createdAt) > SESSION_REAP_TIME`, on `time_t`.
  unfoldable pub is_old : ℕ → Session r → Bool
  is_old now session = ltb (session.created_at + session_reap_time) now

  unfoldable pub reap : ℕ → Map ℤ (Session r) → Map ℤ (Session r)
  reap now [] = []
  reap now ((id, session) ∷ m) =
      let rest = reap now m in if is_old now session then rest else (id, session) ∷ rest

  -- What the reaper leaves of a session.
  abbrev pub survivor : ℕ → Option (Session r) → Option (Session r)
  survivor now none = none
  survivor now (some session) = if is_old now session then none else some session

  find-reap_absent :
      (now : ℕ) (m : Map ℤ (Session r)) (id : ℤ) → find id m ≡ none → find id (reap now m) ≡ none
  unfolding find reap
  find-reap_absent now [] id h = refl
  find-reap_absent now ((k, session) ∷ m) id h = ground (arith, find-reap_absent now m id)

  find-reap :
      (now : ℕ) (m : Map ℤ (Session r)) (id : ℤ)
      → IsKeyed m
      → find id (reap now m) ≡ survivor now (find id m)
  unfolding find reap IsKeyed
  find-reap now [] id h = refl
  find-reap now ((k, session) ∷ m) id (fresh, keyed) =
      ground (arith, find-reap now m id keyed, find-reap_absent now m k fresh)

  reap-IsKeyed : (now : ℕ) (m : Map ℤ (Session r)) → IsKeyed m → IsKeyed (reap now m)
  unfolding reap IsKeyed
  reap-IsKeyed now [] h = h
  reap-IsKeyed now ((k, session) ∷ m) (fresh, keyed) =
      ground (arith, reap-IsKeyed now m keyed, find-reap_absent now m k fresh)

  -- A round of the reaper at the time `now`, on a map without double keys: a session stays under its
  -- number, unchanged, if it was made at most 62 seconds before; it is gone if it is older; and
  -- nothing else comes into the map, nor a double key.
  pub reap_exact :
      (now : ℕ) (m : Map ℤ (Session r))
      → IsKeyed m
      → ((id : ℤ) (session : Session r)
          → find id m ≡ some session
          → now ≤ session.created_at + 62
          → find id (reap now m) ≡ some session)
        × ((id : ℤ) (session : Session r)
            → find id m ≡ some session
            → session.created_at + 62 < now
            → find id (reap now m) ≡ none)
        × ((id : ℤ) → find id m ≡ none → find id (reap now m) ≡ none)
        × IsKeyed (reap now m)
  unfolding is_old
  reap_exact now m keyed = (
    λ id session there young. ground (arith, find-reap now m id keyed),
    λ id session there old. ground (arith, find-reap now m id keyed),
    find-reap_absent now m,
    reap-IsKeyed now m keyed,
  )
