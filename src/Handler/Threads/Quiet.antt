-- ===== src/Handler/Threads/Quiet.antt =====
-- The calls on sites come to their ends.
use vae_thrift.Prelude.{
  ℕ, zero, suc, ◌+◌, ◌≤◌, ◌<◌, ◌≡◌, ◌≢◌, none, Option-cases, Bool, refl, sym, ap, ◌⊎◌, inl, inr,
  arith, ℕ_discrete,
}
use vae_thrift.Prelude.Bytes.{Bytes}
use vae_thrift.Site.{Feeds}
use vae_thrift.Handler.Threads.{Thread, Shared, Step, goes, Reach, here, next}
use vae_thrift.Handler.Threads.Laws.{IsOwned, Step-Owns, Reach-IsOwned}
use vae_thrift.Handler.Threads.Progress.{Ends, steps_left, inside-IsBusy, IsOwned-Advances}

module _ (f : Feeds) where
  -- The steps left of the first `n` threads.
  total : (ℕ → Thread f) → ℕ → ℕ
  total threads zero = 0
  total threads (suc n) = steps_left f (threads n) + total threads n

  -- No thread behind the first `n` has a call.
  abbrev pub IsBounded : ℕ → (ℕ → Thread f) → Type 0
  IsBounded n threads = (u : ℕ) → n ≤ u → steps_left f (threads u) ≡ 0

  busy-cases :
      (n : ℕ) (threads : ℕ → Thread f)
      → ((t : ℕ) × (0 < steps_left f (threads t)))
        ⊎ ((u : ℕ) → u < n → steps_left f (threads u) ≡ 0)
  busy-cases zero threads = inr (λ u h. absurd (omega arith))
  busy-cases (suc n) threads = elim (busy-cases n threads) [
    | inl found ↦ inl found
    | inr quiet ↦ elim (ℕ_discrete (steps_left f (threads n)) 0) [
      | yes e ↦
          inr (λ u h. elim (ℕ_discrete u n) [ yes q ↦ rw q e | no ne ↦ quiet u (omega arith) ])
      | no e ↦ inl (n, omega arith)
    ]
  ]

  total-same :
      (n : ℕ) (threads threads' : ℕ → Thread f) (t : ℕ)
      → n ≤ t
      → ((u : ℕ) → u ≢ t → threads' u ≡ threads u)
      → total threads' n ≡ total threads n
  unfolding total
  total-same zero threads threads' t h same = refl
  total-same (suc n) threads threads' t h same =
      rw (same n (λ q. absurd (omega arith)), total-same n threads threads' t (omega arith) same)
        refl

  total-less :
      (n : ℕ) (threads threads' : ℕ → Thread f) (t : ℕ)
      → t < n
      → steps_left f (threads' t) < steps_left f (threads t)
      → ((u : ℕ) → u ≢ t → threads' u ≡ threads u)
      → total threads' n < total threads n
  unfolding total
  total-less zero threads threads' t h less same = absurd (omega arith)
  total-less (suc n) threads threads' t h less same = elim (ℕ_discrete t n) [
    | yes q ↦
        let less' : steps_left f (threads' n) < steps_left f (threads n) = rw (sym q) less in
        omega (arith, less', total-same n threads threads' t (omega arith) same)
    | no ne ↦
        let kept = ap (steps_left f) (same n (λ q. ne (sym q))) in
        omega (arith, kept, total-less n threads threads' t (omega arith) less same)
  ]

  ≤-cases : (n u : ℕ) → (n ≤ u) ⊎ (u < n)
  ≤-cases n u = omega arith

  module _ (test_mode : Bool) (ends : Ends f test_mode) where
    Reach-trans :
        (s t u : Shared f) → Reach f test_mode s t → Reach f test_mode t u → Reach f test_mode s u
    Reach-trans s t _ before here = before
    Reach-trans s t _ before (next {t = v₁} {u = v₂} after step) =
        next (Reach-trans s t v₁ before after) step

    -- A step that brings a thread nearer to its end.
    nearer :
        (n : ℕ) (s : Shared f) (t : ℕ)
        → IsOwned f s
        → IsBounded n s.threads
        → 0 < steps_left f (s.threads t)
        → (s' : Shared f) × Step f test_mode s s'
          × IsOwned f s'
          × IsBounded n s'.threads
          × (total s'.threads n < total s.threads n)
    nearer n s t v bound busy =
        let (u, why, (s', goes_on, less, same)) = IsOwned-Advances f test_mode ends s t v busy in
        let early : u < n = elim (≤-cases n u) [
          | inl far ↦ absurd (omega (arith, bound u far))
          | inr near ↦ near
        ] in
        let step : Step f test_mode s s' = goes u s' goes_on in
        (
          s',
          step,
          Step-Owns f test_mode s s' step v,
          λ w far. let other : w ≢ u = λ q. absurd (omega arith) in rw (same w other) (bound w far),
          total-less n s.threads s'.threads u early less same,
        )

    quiet_within :
        (fuel n : ℕ) (s : Shared f)
        → IsOwned f s
        → IsBounded n s.threads
        → total s.threads n ≤ fuel
        → (s' : Shared f) × Reach f test_mode s s' × ((u : ℕ) → steps_left f (s'.threads u) ≡ 0)
    quiet_within zero n s v bound enough = elim (busy-cases n s.threads) [
      | inr quiet ↦
          (s, here, λ u. elim (≤-cases n u) [ inl far ↦ bound u far | inr near ↦ quiet u near ])
      | inl (t, busy) ↦
          let (s', step, w, bound', less) = nearer n s t v bound busy in absurd (omega arith)
    ]
    quiet_within (suc fuel) n s v bound enough = elim (busy-cases n s.threads) [
      | inr quiet ↦
          (s, here, λ u. elim (≤-cases n u) [ inl far ↦ bound u far | inr near ↦ quiet u near ])
      | inl (t, busy) ↦
          let (s', step, w, bound', less) = nearer n s t v bound busy in
          let (s'', reach, quiet) = quiet_within fuel n s' w bound' (omega arith) in
          (s'', Reach-trans s s' s'' (next here step) reach, quiet)
    ]

    -- Where the constructor of a site always returns or throws: from every state that the calls reach,
    -- however their steps have interleaved, with calls on the first `n` threads at most, the threads
    -- can go on until all calls have come to their ends. There is no deadlock, and no mutex is left
    -- locked.
    pub Reach-quiet :
        (s s' : Shared f)
        → Reach f test_mode s s'
        → IsOwned f s
        → (n : ℕ) → IsBounded n s'.threads
        → (s'' : Shared f) × Reach f test_mode s' s''
          × ((u : ℕ) → steps_left f (s''.threads u) ≡ 0)
          × ((k : Bytes) → s''.held k ≡ none)
    Reach-quiet s s' reach v n bound =
        let w = Reach-IsOwned f test_mode s s' reach v in
        let (s'', after, quiet) = quiet_within (total s'.threads n) n s' w bound (omega arith) in
        let w' = Reach-IsOwned f test_mode s' s'' after w in
        (
          s'',
          after,
          quiet,
          λ k. elim (Option-cases (s''.held k)) [
            | inl free ↦ free
            | inr (u, taken) ↦
                let (busy, _) =
                  inside-IsBusy f test_mode ends (s''.threads u) k (w'.stands u k taken) in
                absurd (omega (arith, quiet u))
          ],
        )
