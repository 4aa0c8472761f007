-- ===== src/Handler/Threads/Progress.antt =====
-- No deadlock among the calls on sites.
use vae_thrift.Prelude.{
  ℕ, ◌+◌, ◌*◌, ◌≤◌, ◌<◌, ◌≡◌, ◌≢◌, refl, sym, ◌⊎◌, inl, inr, if◌then◌else◌, Bool, true, false,
  Option, none, some, [], ◌∷◌, ◌++◌, arith, Option-cases, length,
}
use vae_thrift.Prelude.Bytes.{Bytes, bytes}
use vae_thrift.Prelude.Eq.{bytes_eq}
use vae_thrift.Prelude.Map.{Map, find}
use vae_thrift.Exec.{Result, ok, raise, undefined, diverges, Error}
use vae_thrift.Site.{Feeds, Site, new_site}
use vae_thrift.Handler.Sites.{sites_key}
use vae_thrift.Handler.Threads.{
  key_of, Thread, idle, entering, looking, reading, loading, putting, checking, answered, resetting,
  counting, fetching, unloading, restoring, remaking, reputting, ended, Shared, at_key, at_thread,
  move, take, give, made_site, kinds, checked, advance,
}
use vae_thrift.Handler.Threads.Laws.{inside, IsOwned}

module _ (f : Feeds) where
  -- How many steps of its own a thread has at most left.
  abbrev pub steps_left : Thread f → ℕ
  steps_left idle = 0
  steps_left (entering d) = 6
  steps_left (looking d) = 5
  steps_left (reading d) = 4
  steps_left (loading d xml) = 3
  steps_left (putting d site) = 2
  steps_left (checking d site) = 1
  steps_left (answered r) = 0
  steps_left (resetting subdomain secret_key) = 1
  steps_left (counting subdomain) = 10
  steps_left (fetching subdomain todo) = 3 + 3 * length todo
  steps_left (unloading subdomain todo xml) = 2 + 3 * length todo
  steps_left (restoring subdomain todo xml) = 1 + 3 * length todo
  steps_left (remaking subdomain staging todo xml) = 3 + 3 * length todo
  steps_left (reputting subdomain staging todo xml site) = 2 + 3 * length todo
  steps_left ended = 0

  -- What a step of thread `t` from where it stands comes to.
  abbrev pub Advances : ℕ → Thread f → Shared f → Option (Shared f) → Type 0
  Advances t th s r =
      (s' : Shared f) × (r ≡ some s')
      × (steps_left (s'.threads t) < steps_left th)
      × ((u : ℕ) → u ≢ t → s'.threads u ≡ s.threads u)

  at_thread_self :
      (threads : ℕ → Thread f) (t : ℕ) (th : Thread f) → at_thread f threads t th t ≡ th
  at_thread_self threads t th = ground arith

  at_thread_other :
      (threads : ℕ → Thread f) (t : ℕ) (th : Thread f) (u : ℕ)
      → u ≢ t
      → at_thread f threads t th u ≡ threads u
  at_thread_other threads t th u h = ground arith

  moves :
      (t : ℕ) (th th' : Thread f) (s s' : Shared f)
      → s'.threads ≡ at_thread f s.threads t th'
      → steps_left th' < steps_left th
      → Advances t th s (some s')
  moves t th th' s s' e less = (
    s',
    refl,
    rw (e, at_thread_self s.threads t th') less,
    λ u h. rw e (at_thread_other s.threads t th' u h),
  )

  takes :
      (t : ℕ) (k : Bytes) (th th' : Thread f) (s : Shared f)
      → s.held k ≡ none
      → steps_left th' < steps_left th
      → Advances t th s (take f t k th' s)
  unfolding take
  takes t k th th' s free less =
      rw (take, free)
        (moves t th th' s (move f t th' (record s { held = at_key f s.held k (some t) })) refl less)

  -- A constructor that returns or throws.
  abbrev pub IsEnding : Result (Site f.Doc) → Type 0
  IsEnding made = ((site : Site f.Doc) × (made ≡ ok site)) ⊎ ((e : Error) × (made ≡ raise e))

  made_site-Advances :
      (t : ℕ) (k : Bytes) (th : Thread f) (go_on : Site f.Doc → Thread f)
      (failed : Result (Site f.Doc) → Thread f) (made : Result (Site f.Doc)) (s : Shared f)
      (w : f.World)
      → IsEnding made
      → ((site : Site f.Doc) → steps_left (go_on site) < steps_left th)
      → ((r : Result (Site f.Doc)) → steps_left (failed r) < steps_left th)
      → Advances t th s (made_site f t k go_on failed made (record s { world = w }))
  unfolding made_site
  made_site-Advances t k th go_on failed (ok site) s w ends on off =
      moves t th (go_on site) s _ refl (on site)
  made_site-Advances t k th go_on failed (raise e) s w ends on off =
      moves t th (failed (raise e)) s _ refl (off (raise e))
  made_site-Advances t k th go_on failed undefined s w (inl (site, h)) on off = cc
  made_site-Advances t k th go_on failed undefined s w (inr (e, h)) on off = cc
  made_site-Advances t k th go_on failed diverges s w (inl (site, h)) on off = cc
  made_site-Advances t k th go_on failed diverges s w (inr (e, h)) on off = cc

  length-kinds :
      (subdomain : Bytes) (sites : Map Bytes (Site f.Doc)) → length (kinds f subdomain sites) ≤ 2
  unfolding kinds
  length-kinds subdomain sites = ground arith

  -- What a thread waits for.
  abbrev pub awaited : Thread f → Option Bytes
  awaited (entering d) = some (key_of d)
  awaited (restoring subdomain (staging ∷ todo) xml) = some (sites_key subdomain staging)
  awaited _ = none

  -- A thread whose call has begun and not yet come to its end.
  abbrev pub IsBusy : Thread f → Type 0
  IsBusy th = 0 < steps_left th

  -- The constructor of a site returns or throws, whatever it is given.
  abbrev pub Ends : Bool → Type 0
  Ends test_mode =
      (subdomain : Bytes) (staging : Bool) (xml : Bytes) (w : f.World)
      → IsEnding (new_site test_mode f subdomain staging xml w).0

  module _ (test_mode : Bool) (ends : Ends test_mode) where
    advance-Advances :
        (t : ℕ) (th : Thread f) (s : Shared f)
        → IsBusy th
        → ((k : Bytes) → awaited th ≡ some k → s.held k ≡ none)
        → Advances t th s (advance f test_mode t th s)
    unfolding advance
    advance-Advances t idle s h free = absurd (omega arith)
    advance-Advances t (entering d) s h free =
        takes t (key_of d) (entering d) (looking d) s (free (key_of d) refl) (omega arith)
    advance-Advances t (looking d) s h free =
        elim (find (key_of d) s.sites)
          as (λ o. Advances t (looking d) s (
            some (elim o [
              | some site ↦ give f t (key_of d) (answered (checked f test_mode site d.secret_key)) s
              | none ↦ move f t (if test_mode then loading d [] else reading d) s
            ]))) [
              | some site ↦
                  moves t (looking d) (answered (checked f test_mode site d.secret_key)) s _ refl
                    (omega arith)
              | none ↦
                  elim test_mode
                    as (λ b.
                      Advances t (looking d) s
                        (some (move f t (if b then loading d [] else reading d) s))) [
                          | true ↦ moves t (looking d) (loading d []) s _ refl (omega arith)
                          | false ↦ moves t (looking d) (reading d) s _ refl (omega arith)
                        ]
            ]
    advance-Advances t (reading d) s h free =
        moves t (reading d) (loading d (f.read_s3 (d.subdomain ++ bytes "-feed.xml") s.world).0) s _
          refl (omega arith)
    advance-Advances t (loading d xml) s h free =
        let (made, w) = new_site test_mode f d.subdomain d.staging xml s.world in
        made_site-Advances t (key_of d) (loading d xml) (putting d) answered made s w
          (ends d.subdomain d.staging xml s.world) (λ site. omega arith) (λ r. omega arith)
    advance-Advances t (putting d site) s h free =
        moves t (putting d site) (checking d site) s _ refl (omega arith)
    advance-Advances t (checking d site) s h free =
        moves t (checking d site) (answered (checked f test_mode site d.secret_key)) s _ refl
          (omega arith)
    advance-Advances t (answered r) s h free = absurd (omega arith)
    advance-Advances t (resetting subdomain secret_key) s h free =
        moves t (resetting subdomain secret_key) ended s _ refl (omega arith)
    advance-Advances t (counting subdomain) s h free =
        moves t (counting subdomain) (fetching subdomain (kinds f subdomain s.sites)) s _ refl
          (omega (arith, length-kinds subdomain s.sites))
    advance-Advances t (fetching subdomain todo) s h free =
        moves t (fetching subdomain todo)
          (unloading subdomain todo (f.read_s3 (subdomain ++ bytes "-feed.xml") s.world).0) s _ refl
          (omega arith)
    advance-Advances t (unloading subdomain todo xml) s h free =
        moves t (unloading subdomain todo xml) (restoring subdomain todo xml) s _ refl (omega arith)
    advance-Advances t (restoring subdomain [] xml) s h free =
        moves t (restoring subdomain [] xml) ended s _ refl (omega arith)
    advance-Advances t (restoring subdomain (staging ∷ todo) xml) s h free =
        takes t (sites_key subdomain staging) (restoring subdomain (staging ∷ todo) xml)
          (remaking subdomain staging todo xml) s (free (sites_key subdomain staging) refl)
          (omega arith)
    advance-Advances t (remaking subdomain staging todo xml) s h free =
        let (made, w) = new_site test_mode f subdomain staging xml s.world in
        made_site-Advances t (sites_key subdomain staging) (remaking subdomain staging todo xml)
          (reputting subdomain staging todo xml) (λ r. ended) made s w
          (ends subdomain staging xml s.world) (λ site. omega arith) (λ r. omega arith)
    advance-Advances t (reputting subdomain staging todo xml site) s h free =
        moves t (reputting subdomain staging todo xml site) (restoring subdomain todo xml) s _ refl
          (omega arith)
    advance-Advances t ended s h free = absurd (omega arith)

    pub inside-IsBusy :
        (th : Thread f) (k : Bytes) → inside f th ≡ some k → IsBusy th × (awaited th ≡ none)
    inside-IsBusy idle k h = cc
    inside-IsBusy (entering d) k h = cc
    inside-IsBusy (looking d) k h = (omega arith, refl)
    inside-IsBusy (reading d) k h = (omega arith, refl)
    inside-IsBusy (loading d xml) k h = (omega arith, refl)
    inside-IsBusy (putting d site) k h = (omega arith, refl)
    inside-IsBusy (checking d site) k h = (omega arith, refl)
    inside-IsBusy (answered r) k h = cc
    inside-IsBusy (resetting subdomain secret_key) k h = cc
    inside-IsBusy (counting subdomain) k h = cc
    inside-IsBusy (fetching subdomain todo) k h = cc
    inside-IsBusy (unloading subdomain todo xml) k h = cc
    inside-IsBusy (restoring subdomain todo xml) k h = cc
    inside-IsBusy (remaking subdomain staging todo xml) k h = (omega arith, refl)
    inside-IsBusy (reputting subdomain staging todo xml site) k h = (omega arith, refl)
    inside-IsBusy ended k h = cc

    -- While a call has not come to its end, some thread can take a step: that of the call, or the one
    -- that owns the mutex it waits for.
    pub IsOwned-Advances :
        (s : Shared f) (t : ℕ)
        → IsOwned f s
        → IsBusy (s.threads t)
        → (u : ℕ) × ((u ≡ t)
            ⊎ ((k : Bytes) × (awaited (s.threads t) ≡ some k) × (s.held k ≡ some u)))
          × Advances u (s.threads u) s (advance f test_mode u (s.threads u) s)
    IsOwned-Advances s t w busy =
        let alone : (u : ℕ)
            → IsBusy (s.threads u)
            → ((k : Bytes) → awaited (s.threads u) ≡ some k → s.held k ≡ none)
            → Advances u (s.threads u) s (advance f test_mode u (s.threads u) s) =
          λ u b free. advance-Advances u (s.threads u) s b free in
        elim (Option-cases (awaited (s.threads t))) [
          | inl nothing ↦ (t, inl refl, alone t busy (λ k h. cc))
          | inr (k, waits) ↦ elim (Option-cases (s.held k)) [
            | inl free ↦
                (t, inl refl, alone t busy (λ j h. let same : k ≡ j = cc in rw (sym same) free))
            | inr (u, taken) ↦
                let (b, nothing) = inside-IsBusy (s.threads u) k (w.stands u k taken) in
                (u, inr (k, waits, taken), alone u b (λ j h. cc))
          ]
        ]
