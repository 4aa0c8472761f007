-- ===== src/Handler/Sessions/Shared/Laws.antt =====
-- A session lives exactly as long as something points to it.
use vae_thrift.Prelude.{ℕ, zero, suc, ◌≡◌, ◌<◌, refl, subst, none, some, arith}
use vae_thrift.Prelude.Int.{ℤ}
use vae_thrift.Prelude.Eq.{int_eq}
use vae_thrift.Prelude.Map.{find}
use vae_thrift.Session.{Responses, Session}
use vae_thrift.Handler.Sessions.Reaper.{IsKeyed}
use vae_thrift.Handler.Sessions.Shared.{
  Shared, no_sessions, reap_shared, Step, opens, closes, finds, queries, ends, reaps, Reach, here,
  next,
}
use vae_thrift.Handler.Sessions.Shared.Counted.{
  IsCounted, opened-IsCounted, closed-IsCounted, found-IsCounted, ended-IsCounted,
  queried-IsCounted,
}
use vae_thrift.Handler.Sessions.Shared.Reaping.{reap_shared_total}
use vae_thrift.Handler.Sessions.Shared.Counts.{entries, holders, to-holders, entries-find}

module _ {Site : Type 0} (r : Responses Site) (n : ℕ) where
  Step-IsCounted : (s s' : Shared r) → Step r n s s' → IsCounted r n s → IsCounted r n s'
  Step-IsCounted s _ (opens id a now site absent unused) v =
      opened-IsCounted r n id a now site s v absent unused
  Step-IsCounted s _ (closes id) v = closed-IsCounted r n id s v
  Step-IsCounted s _ (finds t id near idle) v = found-IsCounted r n t id s near idle v
  Step-IsCounted s _
        (queries t a session session' response_id query options answer near holds there got) v =
      queried-IsCounted r n s a session session' v there
  Step-IsCounted s _ (ends t near) v = ended-IsCounted r n t s near v
  Step-IsCounted s s' (reaps now _ h) v =
      let (s₁, e, w, _) = reap_shared_total r n now s v in
      let same : s₁ ≡ s' = cc in subst (IsCounted r n) same w

  Reach-IsCounted : (s s' : Shared r) → Reach r n s s' → IsCounted r n s → IsCounted r n s'
  Reach-IsCounted s _ here v = v
  Reach-IsCounted s _ (next {t} {u} reach step) v =
      Step-IsCounted t u step (Reach-IsCounted s t reach v)

  holders-idle : (a k : ℕ) → holders a k (λ t. none) ≡ 0
  unfolding holders
  holders-idle a zero = refl
  holders-idle a (suc k) = ground (arith, holders-idle a k)

  no_sessions-IsCounted : IsCounted r n (no_sessions r)
  unfolding IsKeyed entries
  no_sessions-IsCounted = record {
    keyed = tt;
    counted = λ a. ground (arith, holders-idle a n);
    alive = λ a h. absurd (omega arith);
    freed = λ a h. refl;
  }

  -- From no sessions on, whatever sessions `n` threads open, find, query and close, and whenever the
  -- reaper runs: a call that has found its session has it there until it ends, also if the session is
  -- closed or reaped meanwhile; a number in the map names a session that is there; the reaper never reads
  -- a session that was deleted; and a session that neither the map nor a call points to is deleted.
  pub Reach-shared :
      (s : Shared r)
      → Reach r n (no_sessions r) s
      → ((t a : ℕ)
          → t < n
          → s.held t ≡ some a
          → (session : Session r) × (s.objects a ≡ some session))
        × ((id : ℤ) (a : ℕ)
            → find id s.sessions ≡ some a
            → (session : Session r) × (s.objects a ≡ some session))
        × ((now : ℕ) → (s' : Shared r) × (reap_shared r now s ≡ some s'))
        × ((a : ℕ) → entries a s.sessions ≡ 0 → holders a n s.held ≡ 0 → s.objects a ≡ none)
  Reach-shared s reach =
      let w = Reach-IsCounted (no_sessions r) s reach no_sessions-IsCounted in
      (
        (λ t a near holds.
            w.alive a (ground (arith, w.counted a, to-holders a n s.held t near, holds))),
        (λ id a found.
            w.alive a (ground (arith, w.counted a, entries-find a id s.sessions, found))),
        (λ now. let (s', e, _, _) = reap_shared_total r n now s w in (s', e)),
        λ a e h. w.freed a (ground (arith, w.counted a, e, h)),
      )
