-- ===== src/Handler/Sessions/Laws.antt =====
-- What the calls on sessions do to the sessions.
use vae_thrift.Prelude.{
  ℕ, zero, suc, ◌≤◌, ◌≡◌, refl, sym, ap, ◌∙◌, inl, inr, Bool, none, some, arith, Option-cases,
}
use vae_thrift.Prelude.Int.{ℤ}
use vae_thrift.Prelude.Bytes.{Bytes}
use vae_thrift.Prelude.Eq.{int_eq, bytes_eq}
use vae_thrift.Prelude.Map.{find, assign}
use vae_thrift.Exec.{ok, >>=-eq-ok}
use vae_thrift.Site.{Site, validate_secret_key}
use vae_thrift.Session.{Session, new_session}
use vae_thrift.Handler.State.{Backend, State}
use vae_thrift.Handler.Sites.{sites_key, get_site}
use vae_thrift.Handler.Sites.Laws.{get_site_checked}
use vae_thrift.Handler.Sessions.{Opened, unused_id, record_session, open_body}

module _ (b : Backend) (test_mode : Bool) where
  -- The numbers that `openSession` tries: the one suggested, then those of `rand`.
  unfoldable pub tried : ℕ → ℤ → b.feeds.World → ℤ
  tried zero id w = id
  tried (suc n) id w = let (next, w') = b.rand w in tried n next w'

  unused_id_free :
      (fuel : ℕ) (id : ℤ) (s : State b)
      → find id s.sessions ≡ none
      → unused_id b test_mode fuel id s ≡ (ok id, s)
  unfolding unused_id
  unused_id_free zero id s h = ground arith
  unused_id_free (suc fuel) id s h = ground arith

  unused_id_taken :
      (fuel : ℕ) (id : ℤ) (s : State b) (session : Session b.responses)
      → find id s.sessions ≡ some session
      → unused_id b test_mode (suc fuel) id s
        ≡ unused_id b test_mode fuel (b.rand s.world).0 (record s { world = (b.rand s.world).1 })
  unfolding unused_id
  unused_id_taken fuel id s session h = ground arith

  -- If one of the numbers that the loop of `openSession` tries first is free, within its fuel, then
  -- the loop ends, at a free number; and that is the suggested number if it was free.
  pub unused_id_total :
      (fuel n : ℕ) (id : ℤ) (s : State b)
      → n ≤ fuel
      → find (tried n id s.world) s.sessions ≡ none
      → (found : ℤ) × ((unused_id b test_mode fuel id s).0 ≡ ok found)
        × (find found s.sessions ≡ none)
        × (find id s.sessions ≡ none → found ≡ id)
  unfolding tried
  unused_id_total fuel zero id s h free =
      (id, ap (λ x. x.0) (unused_id_free fuel id s free), free, λ _. refl)
  unused_id_total zero (suc n) id s h free = absurd (omega arith)
  unused_id_total (suc fuel) (suc n) id s h free = elim (Option-cases (find id s.sessions)) [
    | inl empty ↦ (id, ap (λ x. x.0) (unused_id_free (suc fuel) id s empty), empty, λ _. refl)
    | inr (session, there) ↦
        let (next, w) = b.rand s.world in
        let (found, e, g, q) =
          unused_id_total fuel n next (record s { world = w }) (omega arith) free in
        (found, rw (unused_id_taken fuel id s session there) e, g, λ empty. absurd (cc))
  ]

  unused_id-ok :
      (fuel : ℕ) (id found : ℤ) (s s' : State b)
      → unused_id b test_mode fuel id s ≡ (ok found, s')
      → (find found s.sessions ≡ none)
        × (find id s.sessions ≡ none → found ≡ id)
        × (s'.sessions ≡ s.sessions)
        × (s'.sites ≡ s.sites)
  unfolding unused_id
  unused_id-ok zero id found s s' h = ground arith
  unused_id-ok (suc fuel) id found s s' h =
      let (next, w) = b.rand s.world in
      ground (arith, unused_id-ok fuel next found (record s { world = w }) s')

  recorded :
      (site : Site b.feeds.Doc) (id : ℤ) (s s' : State b) (opened : Opened b test_mode)
      → record_session b test_mode site id s ≡ (ok opened, s')
      → (opened.session_id ≡ id)
        × (opened.generation ≡ site.generation)
        × (s'.sessions ≡ assign id (new_session b.responses site (b.time s.world)) s.sessions)
        × (s'.sites ≡ s.sites)
  unfolding record_session
  recorded site id s s' opened h = (ground arith, ground arith, ground arith, ground arith)

  pub open_body-ok :
      (fuel : ℕ) (subdomain secret_key : Bytes) (staging : Bool) (suggested : ℤ) (s s' : State b)
      (opened : Opened b test_mode)
      → open_body b test_mode fuel subdomain secret_key staging suggested s ≡ (ok opened, s')
      → (site : Site b.feeds.Doc) × (now : ℕ) × (find opened.session_id s.sessions ≡ none)
        × (find suggested s.sessions ≡ none → opened.session_id ≡ suggested)
        × (validate_secret_key test_mode site secret_key ≡ ok tt)
        × (find (sites_key subdomain staging) s'.sites ≡ some site)
        × (opened.generation ≡ site.generation)
        × (s'.sessions ≡ assign opened.session_id (new_session b.responses site now) s.sessions)
  unfolding open_body
  open_body-ok fuel subdomain secret_key staging suggested s s' opened h =
      let (site, t, got, h₁) =
        >>=-eq-ok (get_site b test_mode subdomain secret_key staging) _ s h in
      let (id, u, found, h₂) = >>=-eq-ok (unused_id b test_mode fuel suggested) _ t h₁ in
      let (checked, loaded, others, same) =
        get_site_checked b test_mode subdomain secret_key staging s t site got in
      let (free, kept, same', sites) = unused_id-ok fuel suggested id t u found in
      let (is_id, generation, sessions', sites') = recorded site id u s' opened h₂ in
      (
        site,
        b.time u.world,
        rw (is_id, sym same) free,
        λ h. is_id ∙ kept (rw same h),
        checked,
        ap (find (sites_key subdomain staging)) (sites' ∙ sites) ∙ loaded,
        generation,
        rw (sessions', is_id, same', same) refl,
      )
