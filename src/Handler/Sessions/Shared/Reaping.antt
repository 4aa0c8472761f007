-- ===== src/Handler/Sessions/Shared/Reaping.antt =====
-- What the reaper does to shared sessions.
use vae_thrift.Prelude.{
  ℕ, ◌≡◌, refl, sym, ap, subst, ◌∙◌, ◌⊎◌, inl, inr, ◌==◌, if◌then◌else◌, true, false, none, some,
  [], ◌∷◌, arith, Option-cases, Bool-cases, ℕ_discrete,
}
use vae_thrift.Prelude.Int.{ℤ}
use vae_thrift.Prelude.Eq.{int_eq, ℤ-discrete}
use vae_thrift.Prelude.Map.{Map, find, erase, find-erase}
use vae_thrift.Session.{Responses, Session}
use vae_thrift.Handler.Sessions.Reaper.{IsKeyed, is_old}
use vae_thrift.Handler.Sessions.Shared.{Shared, close_shared, reap_each, reap_shared}
use vae_thrift.Handler.Sessions.Shared.Counted.{IsCounted, closed-IsCounted}
use vae_thrift.Handler.Sessions.Shared.Counts.{entries-find}

module _ {Site : Type 0} (r : Responses Site) (n : ℕ) where
  -- The entries that the reaper has still to look at are in the map.
  pub Present : Map ℤ ℕ → Map ℤ ℕ → Type 0
  Present m sessions = (k : ℤ) (a : ℕ) → find k m ≡ some a → find k sessions ≡ some a

  Present-rest :
      (id : ℤ) (a : ℕ) (more sessions : Map ℤ ℕ)
      → find id more ≡ none
      → Present ((id, a) ∷ more) sessions
      → Present more sessions × Present more (erase id sessions)
  unfolding Present find
  Present-rest id a more sessions fresh all = (
    (λ k b h. ground (arith, all k b, fresh, h)),
    λ k b h. ground (arith, all k b, fresh, h, find-erase id k sessions),
  )

  sessions-close :
      (id : ℤ) (a : ℕ) (s : Shared r)
      → find id s.sessions ≡ some a
      → (close_shared r id s).sessions ≡ erase id s.sessions
  unfolding close_shared
  sessions-close id a s found = rw (close_shared, found) refl

  head-Present :
      (id : ℤ) (a : ℕ) (more sessions : Map ℤ ℕ)
      → Present ((id, a) ∷ more) sessions
      → find id sessions ≡ some a
  unfolding Present find
  head-Present id a more sessions all = all id a (ground arith)

  -- A session object is left alone, or deleted.
  objects-close :
      (id : ℤ) (s : Shared r) (a : ℕ)
      → ((close_shared r id s).objects a ≡ s.objects a) ⊎ ((close_shared r id s).objects a ≡ none)
  unfolding close_shared
  objects-close id s a = elim (Option-cases (find id s.sessions)) [
    | inl absent ↦ inl (rw (close_shared, absent) refl)
    | inr (b, found) ↦ elim (Bool-cases (s.count b == 1)) [
      | inl last ↦ elim (ℕ_discrete b a) [
        | yes e ↦ inr (rw (close_shared, found) (ground (arith, last)))
        | no ne ↦ inl (rw (close_shared, found) (ground (arith, last)))
      ]
      | inr more ↦ inl (rw (close_shared, found) (ground (arith, more)))
    ]
  ]

  -- What the reaper leaves of the entries `m` of the map.
  pub record Reaped (now : ℕ) (m : Map ℤ ℕ) (s s' : Shared r) : Type 0 where
    pub others : (k : ℤ) → find k m ≡ none → find k s'.sessions ≡ find k s.sessions
    pub decided :
        (k : ℤ) (a : ℕ) (session : Session r)
        → find k m ≡ some a
        → s.objects a ≡ some session
        → find k s'.sessions ≡ (if is_old r now session then none else some a)
    pub same_held : s'.held ≡ s.held

  -- The next entry, of a session that is young.
  young-Reaped :
      (now : ℕ) (id : ℤ) (a : ℕ) (more : Map ℤ ℕ) (session : Session r) (s s' : Shared r)
      → find id more ≡ none
      → find id s.sessions ≡ some a
      → s.objects a ≡ some session
      → is_old r now session ≡ false
      → Reaped now more s s'
      → Reaped now ((id, a) ∷ more) s s'
  unfolding find
  young-Reaped now id a more session s s' fresh found there young v = record {
    others = λ k h. ground (arith, v.others k, h);
    decided = λ k b session' h at.
        ground (arith, v.others k, v.decided k b session', fresh, found, there, young, h, at);
    same_held = v.same_held;
  }

  held-close : (id : ℤ) (s : Shared r) → (close_shared r id s).held ≡ s.held
  unfolding close_shared
  held-close id s = elim (Option-cases (find id s.sessions)) [
    | inl absent ↦ rw (close_shared, absent) refl
    | inr (b, found) ↦ rw (close_shared, found) refl
  ]

  -- A session that the map still has is not deleted when another is closed.
  objects-close_kept :
      (id k : ℤ) (a : ℕ) (session : Session r) (s : Shared r)
      → IsCounted r n s
      → find k (close_shared r id s).sessions ≡ some a
      → s.objects a ≡ some session
      → (close_shared r id s).objects a ≡ some session
  objects-close_kept id k a session s v found there =
      let w = closed-IsCounted r n id s v in
      let closed = close_shared r id s in
      let (session', e) =
        w.alive a (ground (arith, w.counted a, entries-find a k closed.sessions, found)) in
      elim (objects-close id s a) [
        | inl same ↦ same ∙ there
        | inr gone ↦ absurd (ground (arith, gone, e))
      ]

  -- The next entry, of a session that is old.
  old-Reaped :
      (now : ℕ) (id : ℤ) (a : ℕ) (more : Map ℤ ℕ) (session : Session r) (s s' : Shared r)
      → IsCounted r n s
      → find id more ≡ none
      → find id s.sessions ≡ some a
      → s.objects a ≡ some session
      → is_old r now session ≡ true
      → Present more (close_shared r id s).sessions
      → Reaped now more (close_shared r id s) s'
      → Reaped now ((id, a) ∷ more) s s'
  unfolding find Present
  old-Reaped now id a more session s s' counts fresh found there old all v =
      let erased = sessions-close id a s found in
      let after : (k : ℤ) → find k (close_shared r id s).sessions ≡ find k (erase id s.sessions) =
        λ k. ap (find k) erased in
      record {
        others = λ k h. ground (arith, v.others k, after k, find-erase id k s.sessions, h);
        decided = λ k b session' h at. elim (ℤ-discrete id k) [
          | yes e ↦ ground (
            arith,
            v.others k,
            after k,
            find-erase id k s.sessions,
            fresh,
            found,
            there,
            old,
            h,
            at,
            e,
          )
          | no ne ↦
              let h' : find k more ≡ some b = ground (arith, h, ne) in
              v.decided k b session' h'
                (objects-close_kept id k b session' s counts (all k b h') at)
        ];
        same_held = v.same_held ∙ held-close id s;
      }

  reap_each_total :
      (now : ℕ) (m : Map ℤ ℕ) (s : Shared r)
      → IsKeyed m
      → Present m s.sessions
      → IsCounted r n s
      → (s' : Shared r) × (reap_each r now m s ≡ some s') × IsCounted r n s' × Reaped now m s s'
  unfolding reap_each IsKeyed find
  reap_each_total now [] s keyed all v = (
    s,
    refl,
    v,
    record { others = λ k h. refl; decided = λ k a session h at. cc; same_held = refl },
  )
  reap_each_total now ((id, a) ∷ more) s (fresh, keyed) all v =
      let found = head-Present id a more s.sessions all in
      let (session, e) =
        v.alive a (ground (arith, v.counted a, entries-find a id s.sessions, found)) in
      let (kept, less) = Present-rest id a more s.sessions fresh all in
      let closed = close_shared r id s in
      let less' : Present more closed.sessions =
        subst (Present more) (sym (sessions-close id a s found)) less in
      elim (Bool-cases (is_old r now session)) [
        | inl old ↦
            let (s', run, w, reaped) =
              reap_each_total now more closed keyed less' (closed-IsCounted r n id s v) in
            (
              s',
              rw (reap_each, e, old) run,
              w,
              old-Reaped now id a more session s s' v fresh found e old less' reaped,
            )
        | inr young ↦
            let (s', run, w, reaped) = reap_each_total now more s keyed kept v in
            (
              s',
              rw (reap_each, e, young) run,
              w,
              young-Reaped now id a more session s s' fresh found e young reaped,
            )
      ]

  whole-Present : (m : Map ℤ ℕ) → Present m m
  unfolding Present
  whole-Present m k a h = h

  -- With right use counts, a round of the reaper comes to its end and reads only sessions that are
  -- there. Exactly the sessions that are too old are taken out of the map, the others keep their numbers
  -- and addresses, no number comes in, and no call loses the session that it works with.
  pub reap_shared_total :
      (now : ℕ) (s : Shared r)
      → IsCounted r n s
      → (s' : Shared r) × (reap_shared r now s ≡ some s')
        × IsCounted r n s'
        × Reaped now s.sessions s s'
  unfolding reap_shared
  reap_shared_total now s v = reap_each_total now s.sessions s v.keyed (whole-Present s.sessions) v
