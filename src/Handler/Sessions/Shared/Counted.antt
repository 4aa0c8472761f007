-- ===== src/Handler/Sessions/Shared/Counted.antt =====
-- The use counts stay right.
use vae_thrift.Prelude.{
  ℕ, ◌+◌, ◌≡◌, ◌<◌, inl, inr, Option, none, some, arith, Option-cases, ℕ_discrete,
}
use vae_thrift.Prelude.Int.{ℤ}
use vae_thrift.Prelude.Eq.{int_eq}
use vae_thrift.Prelude.Map.{find, erase}
use vae_thrift.Session.{Responses, Session, new_session}
use vae_thrift.Handler.Sessions.Reaper.{IsKeyed}
use vae_thrift.Handler.Sessions.Shared.{
  Shared, set, release, open_shared, close_shared, find_shared, end_call,
}
use vae_thrift.Handler.Sessions.Shared.Counts.{
  to, entries, holders, holders-set, entries-assign, entries-erase, entries-find, erase-IsKeyed,
  assign-IsKeyed,
}

module _ {Site : Type 0} (r : Responses Site) (n : ℕ) where
  -- The use counts are right, but for `extra` more at one address.
  pub record Counts (s : Shared r) (extra : Option ℕ) : Type 0 where
    pub keyed : IsKeyed s.sessions
    pub counted : (a : ℕ) → s.count a ≡ entries a s.sessions + holders a n s.held + to a extra
    pub alive : (a : ℕ) → 0 < s.count a → (session : Session r) × (s.objects a ≡ some session)
    pub freed : (a : ℕ) → s.count a ≡ 0 → s.objects a ≡ none

  abbrev pub IsCounted : Shared r → Type 0
  IsCounted s = Counts s none

  pub release-IsCounted : (a : ℕ) (s : Shared r) → Counts s (some a) → IsCounted (release r a s)
  release-IsCounted a s v = record {
    keyed = v.keyed;
    counted = λ b. ground (arith, v.counted b);
    alive = λ b h.
        let before : 0 < s.count b = ground (arith, h) in
        let (session, e) = v.alive b before in (session, ground (arith, e, h));
    freed = λ b h. ground (arith, v.freed b, v.counted b);
  }

  pub opened-IsCounted :
      (id : ℤ) (a now : ℕ) (site : Site) (s : Shared r)
      → IsCounted s
      → find id s.sessions ≡ none
      → s.objects a ≡ none
      → IsCounted (open_shared r id a site now s)
  unfolding open_shared
  opened-IsCounted id a now site s v absent unused =
      let nothing : s.count a ≡ 0 = elim (ℕ_discrete (s.count a) 0) [
        | yes e ↦ e
        | no ne ↦ let (session, e) = v.alive a (omega arith) in absurd (ground (arith, e, unused))
      ] in
      record {
        keyed = assign-IsKeyed id a s.sessions v.keyed;
        counted = λ b. ground (arith, v.counted b, entries-assign b id a s.sessions absent);
        alive = λ b h. elim (ℕ_discrete a b) [
          | yes e ↦ (new_session r site now, ground arith)
          | no ne ↦ let (session, e) = v.alive b (ground (arith, h)) in (session, ground (arith, e))
        ];
        freed = λ b h. ground (arith, v.freed b, h);
      }

  pub closed-IsCounted : (id : ℤ) (s : Shared r) → IsCounted s → IsCounted (close_shared r id s)
  unfolding close_shared
  closed-IsCounted id s v = elim (Option-cases (find id s.sessions)) [
    | inl absent ↦ rw (close_shared, absent) v
    | inr (a, found) ↦
        rw (close_shared, found)
          (release-IsCounted a (record s { sessions = erase id s.sessions })
            (record {
              keyed = erase-IsKeyed id s.sessions v.keyed;
              counted =
                  λ b. ground (arith, v.counted b, entries-erase b id s.sessions v.keyed, found);
              alive = v.alive;
              freed = v.freed;
            }))
  ]

  pub found-IsCounted :
      (t : ℕ) (id : ℤ) (s : Shared r)
      → t < n
      → s.held t ≡ none
      → IsCounted s
      → IsCounted (find_shared r t id s)
  unfolding find_shared
  found-IsCounted t id s near idle v = elim (Option-cases (find id s.sessions)) [
    | inl absent ↦ rw (find_shared, absent) v
    | inr (a, found) ↦
        let some_use : 0 < s.count a =
          ground (arith, v.counted a, entries-find a id s.sessions, found) in
        rw (find_shared, found)
          (record {
            keyed = v.keyed;
            counted =
                λ b. ground (arith, v.counted b, holders-set b n s.held t (some a) near, idle);
            alive = λ b h. elim (ℕ_discrete a b) [
              | yes e ↦ v.alive b (ground (arith, some_use))
              | no ne ↦ v.alive b (ground (arith, h))
            ];
            freed = λ b h. v.freed b (ground (arith, h));
          })
  ]

  pub ended-IsCounted : (t : ℕ) (s : Shared r) → t < n → IsCounted s → IsCounted (end_call r t s)
  unfolding end_call
  ended-IsCounted t s near v = elim (Option-cases (s.held t)) [
    | inl idle ↦ rw (end_call, idle) v
    | inr (a, holds) ↦
        rw (end_call, holds)
          (release-IsCounted a (record s { held = set r s.held t none })
            (record {
              keyed = v.keyed;
              counted = λ b. ground (arith, v.counted b, holders-set b n s.held t none near, holds);
              alive = v.alive;
              freed = v.freed;
            }))
  ]

  pub queried-IsCounted :
      (s : Shared r) (a : ℕ) (session session' : Session r)
      → IsCounted s
      → s.objects a ≡ some session
      → IsCounted (record s { objects = set r s.objects a (some session') })
  queried-IsCounted s a session session' v there = record {
    keyed = v.keyed;
    counted = v.counted;
    alive = λ b h. elim (ℕ_discrete a b) [
      | yes e ↦ (session', ground arith)
      | no ne ↦ let (old, e) = v.alive b h in (old, ground (arith, e))
    ];
    freed = λ b h. ground (arith, v.freed b h, there);
  }
