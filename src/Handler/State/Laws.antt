-- ===== src/Handler/State/Laws.antt =====
-- What the log entry around a call leaves alone.
use vae_thrift.Prelude.{◌≡◌, refl, List, ℕ, Option-cases, inl, inr, ◌⊎◌}
use vae_thrift.Prelude.Bytes.{Bytes}
use vae_thrift.Exec.{Result, ok, raise, undefined, diverges, Exec}
use vae_thrift.QueryLog.Entry.{Value, new_entry, method_call, log_values}
use vae_thrift.Handler.State.{Backend, State, close, logged}

module _ (b : Backend) where
  -- Two states that differ in the log and the entry at most.
  abbrev pub SameButLog : State b → State b → Type 0
  SameButLog s t =
      (s.sessions ≡ t.sessions)
      × (s.sites ≡ t.sites)
      × (s.site_mutexes ≡ t.site_mutexes)
      × (s.world ≡ t.world)

  close-SameButLog {ℓ} :
      {A : Type ℓ} (r : Result A) (s : State b)
      → SameButLog (close b (r, s)).1 s × ((close b (r, s)).0 ≡ r)
  unfolding close
  close-SameButLog (ok a) s = ((refl, refl, refl, refl), refl)
  close-SameButLog (raise e) s = ((refl, refl, refl, refl), refl)
  close-SameButLog undefined s = ((refl, refl, refl, refl), refl)
  close-SameButLog diverges s = ((refl, refl, refl, refl), refl)

  -- A logged call hangs while it writes its arguments, or it does what its body does.
  pub logged_cases {ℓ} :
      {A : Type ℓ} (fuel : ℕ) (name : Bytes) (args : List Value) (body : Exec (State b) A)
      (s : State b)
      → ((((logged b fuel name args body s).0 ≡ diverges)
            × SameButLog (logged b fuel name args body s).1 s)
          ⊎ ((s₀ : State b) × SameButLog s₀ s
              × ((logged b fuel name args body s).0 ≡ (body s₀).0)
              × SameButLog (logged b fuel name args body s).1 (body s₀).1))
  unfolding logged
  logged_cases fuel name args body s =
      let (e, log) = new_entry s.log in
      elim (Option-cases (
        log_values b.show fuel log args (method_call b.show log name (b.microseconds s.world) e))) [
          | inl hangs ↦ rw (logged, hangs) (inl (refl, (refl, refl, refl, refl)))
          | inr (e', written) ↦
              let s₀ = record s { log = log; entry = e' } in
              let (same, r) = close-SameButLog (body s₀).0 (body s₀).1 in
              rw (logged, written) (inr (s₀, (refl, refl, refl, refl), r, same))
        ]
