-- ===== src/Handler/Threads/Laws.antt =====
-- The mutex of a site has one owner.
use vae_thrift.Prelude.{
  ℕ, ◌≡◌, refl, sym, ap, ◌∙◌, inl, inr, ◌==◌, if◌then◌else◌, Bool, true, false, Option, none, some,
  [], ◌∷◌, ◌++◌, arith, Bool-cases, Option-cases,
}
use vae_thrift.Prelude.Bytes.{Bytes, bytes}
use vae_thrift.Prelude.Eq.{bytes_eq}
use vae_thrift.Prelude.Map.{find}
use vae_thrift.Exec.{Result, ok, raise, undefined, diverges}
use vae_thrift.Site.{Feeds, Site, new_site}
use vae_thrift.Handler.Sites.{sites_key}
use vae_thrift.Handler.Threads.{
  key_of, Thread, idle, entering, looking, reading, loading, putting, checking, answered, resetting,
  counting, fetching, unloading, restoring, remaking, reputting, ended, Shared, at_key, at_thread,
  move, take, give, made_site, kinds, checked, advance, IsCall, get_site_call, reset_site_call,
  reload_site_call, Step, goes, call, outside, Reach, here, next,
}

module _ (f : Feeds) where
  -- The site whose mutex a thread holds, by where it stands.
  abbrev pub inside : Thread f → Option Bytes
  inside idle = none
  inside (entering d) = none
  inside (looking d) = some (key_of d)
  inside (reading d) = some (key_of d)
  inside (loading d xml) = some (key_of d)
  inside (putting d site) = some (key_of d)
  inside (checking d site) = some (key_of d)
  inside (answered r) = none
  inside (resetting subdomain secret_key) = none
  inside (counting subdomain) = none
  inside (fetching subdomain todo) = none
  inside (unloading subdomain todo xml) = none
  inside (restoring subdomain todo xml) = none
  inside (remaking subdomain staging todo xml) = some (sites_key subdomain staging)
  inside (reputting subdomain staging todo xml site) = some (sites_key subdomain staging)
  inside ended = none

  -- A thread that stands inside owns the mutex, and the owner of a mutex stands inside.
  pub record Owns (held : Bytes → Option ℕ) (threads : ℕ → Thread f) : Type 0 where
    pub owner : (t : ℕ) (k : Bytes) → inside (threads t) ≡ some k → held k ≡ some t
    pub stands : (t : ℕ) (k : Bytes) → held k ≡ some t → inside (threads t) ≡ some k

  module _ (held : Bytes → Option ℕ) (threads : ℕ → Thread f) (t : ℕ) (th : Thread f) where
    inside-at_thread :
        (u : ℕ)
        → inside (at_thread f threads t th u) ≡ (if t == u then inside th else inside (threads u))
    inside-at_thread u = elim (Bool-cases (t == u)) [
      | inl e ↦ rw (at_thread, e) refl
      | inr e ↦ rw (at_thread, e) refl
    ]

    moved-Owns :
        Owns held threads → inside th ≡ inside (threads t) → Owns held (at_thread f threads t th)
    moved-Owns v same = record {
      owner = λ u k h. ground (arith, inside-at_thread u, v.owner u k, v.owner t k);
      stands = λ u k h. ground (arith, inside-at_thread u, v.stands u k);
    }

    taken-Owns :
        (k : Bytes)
        → Owns held threads
        → held k ≡ none
        → inside (threads t) ≡ none
        → inside th ≡ some k
        → Owns (at_key f held k (some t)) (at_thread f threads t th)
    taken-Owns k v free out inner = record {
      owner = λ u j h. ground (arith, inside-at_thread u, v.owner u j, v.owner t j);
      stands = λ u j h. ground (arith, inside-at_thread u, v.stands u j);
    }

    given-Owns :
        (k : Bytes)
        → Owns held threads
        → inside (threads t) ≡ some k
        → inside th ≡ none
        → Owns (at_key f held k none) (at_thread f threads t th)
    given-Owns k v inner out = record {
      owner = λ u j h. ground (arith, inside-at_thread u, v.owner u j, v.owner t k);
      stands = λ u j h. ground (arith, inside-at_thread u, v.stands u j, v.stands t j);
    }

  abbrev pub IsOwned : Shared f → Type 0
  IsOwned s = Owns s.held s.threads

  some-Owned : (x s' : Shared f) → some x ≡ some s' → IsOwned x → IsOwned s'
  some-Owned x s' e v = let same : x ≡ s' = cc in rw (sym same) v

  take-Owns :
      (t : ℕ) (k : Bytes) (th : Thread f) (s s' : Shared f)
      → IsOwned s
      → inside (s.threads t) ≡ none
      → inside th ≡ some k
      → take f t k th s ≡ some s'
      → IsOwned s'
  unfolding take
  take-Owns t k th s s' v out inner h = elim (Option-cases (s.held k)) [
    | inl free ↦
        some-Owned (move f t th (record s { held = at_key f s.held k (some t) })) s' (ground arith)
          (taken-Owns s.held s.threads t th k v free out inner)
    | inr (owner, taken) ↦ absurd (ground arith)
  ]

  made_site-Owns :
      (t : ℕ) (k : Bytes) (go_on : Site f.Doc → Thread f) (failed : Result (Site f.Doc) → Thread f)
      (made : Result (Site f.Doc)) (s s' : Shared f)
      → IsOwned s
      → inside (s.threads t) ≡ some k
      → ((site : Site f.Doc) → inside (go_on site) ≡ some k)
      → ((r : Result (Site f.Doc)) → inside (failed r) ≡ none)
      → made_site f t k go_on failed made s ≡ some s'
      → IsOwned s'
  unfolding made_site
  made_site-Owns t k go_on failed (ok site) s s' v inner on off h =
      some-Owned _ s' h (moved-Owns s.held s.threads t (go_on site) v (on site ∙ sym inner))
  made_site-Owns t k go_on failed (raise e) s s' v inner on off h =
      some-Owned _ s' h (given-Owns s.held s.threads t (failed (raise e)) k v inner (off (raise e)))
  made_site-Owns t k go_on failed undefined s s' v inner on off h = cc
  made_site-Owns t k go_on failed diverges s s' v inner on off h = cc

  module _ (test_mode : Bool) where
    advance-Owns :
        (t : ℕ) (th : Thread f) (s s' : Shared f)
        → IsOwned s
        → s.threads t ≡ th
        → advance f test_mode t th s ≡ some s'
        → IsOwned s'
    unfolding advance
    advance-Owns t idle s s' v e h = cc
    advance-Owns t (entering d) s s' v e h =
        take-Owns t (key_of d) (looking d) s s' v (ap inside e) refl h
    advance-Owns t (looking d) s s' v e h = elim (Option-cases (find (key_of d) s.sites)) [
      | inl absent ↦
          some-Owned (move f t (if test_mode then loading d [] else reading d) s) s' (ground arith)
            (moved-Owns s.held s.threads t (if test_mode then loading d [] else reading d) v
              (elim test_mode
                as (λ b. inside (if b then loading d [] else reading d) ≡ inside (s.threads t)) [
                  | true ↦ sym (ap inside e)
                  | false ↦ sym (ap inside e)
                ]))
      | inr (site, found) ↦
          some-Owned (give f t (key_of d) (answered (checked f test_mode site d.secret_key)) s) s'
            (ground arith)
            (given-Owns s.held s.threads t (answered (checked f test_mode site d.secret_key))
              (key_of d) v (ap inside e) refl)
    ]
    advance-Owns t (reading d) s s' v e h =
        let (xml, w) = f.read_s3 (d.subdomain ++ bytes "-feed.xml") s.world in
        some-Owned _ s' h (moved-Owns s.held s.threads t (loading d xml) v (sym (ap inside e)))
    advance-Owns t (loading d xml) s s' v e h =
        let (made, w) = new_site test_mode f d.subdomain d.staging xml s.world in
        made_site-Owns t (key_of d) (putting d) answered made (record s { world = w }) s' v
          (ap inside e) (λ site. refl) (λ r. refl) h
    advance-Owns t (putting d site) s s' v e h =
        some-Owned _ s' h (moved-Owns s.held s.threads t (checking d site) v (sym (ap inside e)))
    advance-Owns t (checking d site) s s' v e h = some-Owned _ s' h (
        given-Owns s.held s.threads t (answered (checked f test_mode site d.secret_key)) (key_of d)
          v (ap inside e) refl)
    advance-Owns t (answered r) s s' v e h = cc
    advance-Owns t (resetting subdomain secret_key) s s' v e h =
        some-Owned _ s' h (moved-Owns s.held s.threads t ended v (sym (ap inside e)))
    advance-Owns t (counting subdomain) s s' v e h = some-Owned _ s' h (
        moved-Owns s.held s.threads t (fetching subdomain (kinds f subdomain s.sites)) v
          (sym (ap inside e)))
    advance-Owns t (fetching subdomain todo) s s' v e h =
        let (xml, w) = f.read_s3 (subdomain ++ bytes "-feed.xml") s.world in
        some-Owned _ s' h
          (moved-Owns s.held s.threads t (unloading subdomain todo xml) v (sym (ap inside e)))
    advance-Owns t (unloading subdomain todo xml) s s' v e h =
        some-Owned _ s' h
          (moved-Owns s.held s.threads t (restoring subdomain todo xml) v (sym (ap inside e)))
    advance-Owns t (restoring subdomain [] xml) s s' v e h =
        some-Owned _ s' h (moved-Owns s.held s.threads t ended v (sym (ap inside e)))
    advance-Owns t (restoring subdomain (staging ∷ todo) xml) s s' v e h =
        take-Owns t (sites_key subdomain staging) (remaking subdomain staging todo xml) s s' v
          (ap inside e) refl h
    advance-Owns t (remaking subdomain staging todo xml) s s' v e h =
        let (made, w) = new_site test_mode f subdomain staging xml s.world in
        made_site-Owns t (sites_key subdomain staging) (reputting subdomain staging todo xml)
          (λ r. ended) made (record s { world = w }) s' v (ap inside e) (λ site. refl) (λ r. refl) h
    advance-Owns t (reputting subdomain staging todo xml site) s s' v e h = some-Owned _ s' h (
        given-Owns s.held s.threads t (restoring subdomain todo xml) (sites_key subdomain staging) v
          (ap inside e) refl)
    advance-Owns t ended s s' v e h = cc

    IsCall-out : (th : Thread f) → IsCall f test_mode th → inside th ≡ none
    IsCall-out _ (get_site_call d) = refl
    IsCall-out _ (reset_site_call subdomain secret_key) = refl
    IsCall-out _ (reload_site_call subdomain) = refl

    pub Step-Owns : (s s' : Shared f) → Step f test_mode s s' → IsOwned s → IsOwned s'
    Step-Owns s _ (goes t s' h) v = advance-Owns t (s.threads t) s s' v refl h
    Step-Owns s _ (call t th free calls) v =
        moved-Owns s.held s.threads t th v (IsCall-out th calls ∙ sym (ap inside free))
    Step-Owns s _ (outside w) v = v

    pub Reach-IsOwned : (s s' : Shared f) → Reach f test_mode s s' → IsOwned s → IsOwned s'
    Reach-IsOwned s _ here v = v
    Reach-IsOwned s _ (next {t} {u} reach step) v = Step-Owns t u step (Reach-IsOwned s t reach v)

    -- From a state where every owner of a site's mutex stands between taking it and giving it up,
    -- as one where no thread has begun: whatever calls come in and however their steps interleave,
    -- it stays so. So two threads never look for, make or put the same site at a time, and no
    -- mutex is left locked behind a call that has ended, also not by an exception.
    pub Reach-Owns :
        (s s' : Shared f)
        → Reach f test_mode s s'
        → IsOwned s
        → IsOwned s'
          × ((t u : ℕ) (k : Bytes)
              → inside (s'.threads t) ≡ some k
              → inside (s'.threads u) ≡ some k
              → t ≡ u)
    Reach-Owns s s' reach v =
        let w = Reach-IsOwned s s' reach v in
        (w, λ t u k h i. ground (arith, w.owner t k, w.owner u k))
