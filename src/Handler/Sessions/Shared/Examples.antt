-- ===== src/Handler/Sessions/Shared/Examples.antt =====
-- A session that is closed while a call works with it.
use vae_thrift.Prelude.{ℕ, zero, suc, ◌≡◌, ◌<◌, refl, none, some, [], ◌∷◌, arith, ℕ_discrete}
use vae_thrift.Prelude.Int.{ℤ, pos}
use vae_thrift.Prelude.Eq.{int_eq}
use vae_thrift.Prelude.Map.{find, assign}
use vae_thrift.Session.{Session, new_session}
use vae_thrift.Session.Examples.{echo}
use vae_thrift.Handler.Sessions.Reaper.{IsKeyed}
use vae_thrift.Handler.Sessions.Shared.{
  Shared, no_sessions, set, open_shared, close_shared, find_shared, reap_shared, opens, closes,
  finds, Reach, here, next,
}
use vae_thrift.Handler.Sessions.Shared.Counts.{entries, holders}
use vae_thrift.Handler.Sessions.Shared.Counted.{IsCounted}
use vae_thrift.Handler.Sessions.Shared.Reaping.{Reaped, reap_shared_total}
use vae_thrift.Handler.Sessions.Shared.Laws.{Reach-shared}

holders-idle : (a n : ℕ) → holders a n (λ t. none) ≡ 0
unfolding holders
holders-idle a zero = refl
holders-idle a (suc n) = ground (arith, holders-idle a n)

-- Session 1 is opened, a call finds it, and it is closed.
abbrev opened : Shared {Site = ℕ} echo
opened = record {
  sessions = (pos 1, 10) ∷ [];
  objects = set {Site = ℕ} echo (λ a. none) 10 (some (new_session echo 7 0));
  count = set {Site = ℕ} echo (λ a. 0) 10 1;
  held = λ t. none;
}

no_session : find {V = ℕ} (pos 1) [] ≡ none
unfolding find
no_session = refl

abbrev after : Shared {Site = ℕ} echo
after = close_shared echo (pos 1) (find_shared echo 0 (pos 1) opened)

trace : Reach echo 2 (no_sessions echo) after
unfolding open_shared assign
trace =
    next
      (next (next here (opens (pos 1) 10 0 7 no_session refl)) (finds 0 (pos 1) (omega arith) refl))
      (closes (pos 1))

Reach-shared_example :
    ((t a : ℕ)
      → t < 2
      → after.held t ≡ some a
      → (session : Session {Site = ℕ} echo) × (after.objects a ≡ some session))
    × ((id : ℤ) (a : ℕ)
        → find id after.sessions ≡ some a
        → (session : Session {Site = ℕ} echo) × (after.objects a ≡ some session))
    × ((now : ℕ) → (s'' : Shared {Site = ℕ} echo) × (reap_shared echo now after ≡ some s''))
    × ((a : ℕ) → entries a after.sessions ≡ 0 → holders a 2 after.held ≡ 0 → after.objects a ≡ none)
Reach-shared_example = Reach-shared echo 2 after trace

opened-IsCounted : IsCounted echo 2 opened
unfolding IsKeyed entries find
opened-IsCounted = record {
  keyed = (refl, tt);
  counted = λ a. ground (arith, holders-idle a 2);
  alive = λ a h. elim (ℕ_discrete 10 a) [
    | yes e ↦ (new_session echo 7 0, ground arith)
    | no ne ↦ absurd (ground (arith, h))
  ];
  freed = λ a h. ground (arith, h);
}

reap_shared_total_example :
    (s : Shared {Site = ℕ} echo) × (reap_shared echo 100 opened ≡ some s)
    × IsCounted echo 2 s
    × Reaped echo 2 100 opened.sessions opened s
reap_shared_total_example = reap_shared_total echo 2 100 opened opened-IsCounted
