-- ===== src/Handler/Sites/Reload.antt =====
-- What `reloadSite` does to the loaded sites.
use vae_thrift.Prelude.{
  ◌≡◌, ◌≢◌, refl, sym, ap, ◌∙◌, ◌⊎◌, inl, inr, Bool, true, false, none, some, [], ◌++◌, arith,
  Option-cases,
}
use vae_thrift.Prelude.Bytes.{Bytes, bytes}
use vae_thrift.Prelude.Eq.{bytes_eq}
use vae_thrift.Prelude.Map.{find, assign, erase, find-erase, find-assign_ne, find-assign_self}
use vae_thrift.Handler.Sites.Reset.{site_keys_differ}
use vae_thrift.Handler.Sites.Laws.{load_site-ok}
use vae_thrift.Exec.{>>=-eq-ok, ok}
use vae_thrift.Site.{Site, new_site}
use vae_thrift.Handler.State.{Backend, State}
use vae_thrift.Handler.Sites.{
  sites_key, get_site_mutex, load_site, erase_site, reset_sites, is_loaded, load_again, reload_site,
}

module _ (b : Backend) (test_mode : Bool) where
  -- The site that a call of `_loadSite` with `xml` made and put under its key.
  abbrev LoadedFrom : Bytes → Bool → Bytes → State b → State b → Type 0
  LoadedFrom subdomain staging xml s s' =
      (site : Site b.feeds.Doc) × (w : b.feeds.World) × ((new_site test_mode b.feeds subdomain
          staging xml w).0
        ≡ ok site)
      × (s'.sites ≡ assign (sites_key subdomain staging) site s.sites)

  load_again-ok :
      (wanted : Bool) (subdomain : Bytes) (staging : Bool) (xml : Bytes) (s s' : State b)
      → load_again b test_mode wanted subdomain staging xml s ≡ (ok tt, s')
      → (((wanted ≡ false) × (s'.sites ≡ s.sites))
          ⊎ ((wanted ≡ true) × LoadedFrom subdomain staging xml s s'))
        × (s'.sessions ≡ s.sessions)
  unfolding load_again get_site_mutex
  load_again-ok false subdomain staging xml s s' h = (inl (refl, ground arith), ground arith)
  load_again-ok true subdomain staging xml s s' h =
      let (mutex, t, got, h') = >>=-eq-ok (get_site_mutex b test_mode subdomain staging) _ s h in
      let (site, u, loaded, last) =
        >>=-eq-ok (load_site b test_mode subdomain staging xml) _ t h' in
      let (made, put, kept) = load_site-ok b test_mode subdomain staging xml t u site loaded in
      (
        inr (refl, (site, t.world, made, ground (arith, got, last, put))),
        ground (arith, got, last, kept),
      )

  reset_sites_forced :
      (subdomain secret_key : Bytes) (s : State b)
      → (s' : State b) × (reset_sites b test_mode subdomain secret_key true s ≡ (ok tt, s'))
        × (find (sites_key subdomain false) s'.sites ≡ none)
        × (find (sites_key subdomain true) s'.sites ≡ none)
        × ((k : Bytes)
            → k ≢ sites_key subdomain false
            → k ≢ sites_key subdomain true
            → find k s'.sites ≡ find k s.sites)
        × (s'.sessions ≡ s.sessions)
  unfolding reset_sites erase_site
  reset_sites_forced subdomain secret_key s = (
    (reset_sites b test_mode subdomain secret_key true s).1,
    ground arith,
    ground (
      arith,
      find-erase (sites_key subdomain false) (sites_key subdomain false) s.sites,
      find-erase (sites_key subdomain true) (sites_key subdomain false)
          (erase (sites_key subdomain false) s.sites),
      find-erase (sites_key subdomain true) (sites_key subdomain false) s.sites,
    ),
    ground (
      arith,
      find-erase (sites_key subdomain true) (sites_key subdomain true)
          (erase (sites_key subdomain false) s.sites),
      find-erase (sites_key subdomain true) (sites_key subdomain true) s.sites,
      find-erase (sites_key subdomain false) (sites_key subdomain true) s.sites,
    ),
    λ k ne ne'. ground (
      arith,
      find-erase (sites_key subdomain false) k s.sites,
      find-erase (sites_key subdomain true) k (erase (sites_key subdomain false) s.sites),
      find-erase (sites_key subdomain true) k s.sites,
    ),
    ground arith,
  )

  load_again_other :
      (wanted : Bool) (subdomain : Bytes) (staging : Bool) (xml : Bytes) (s s' : State b)
      (k : Bytes)
      → load_again b test_mode wanted subdomain staging xml s ≡ (ok tt, s')
      → k ≢ sites_key subdomain staging
      → find k s'.sites ≡ find k s.sites
  load_again_other wanted subdomain staging xml s s' k h ne =
      elim (load_again-ok wanted subdomain staging xml s s' h).0 [
        | inl (unwanted, same) ↦ ap (find k) same
        | inr (wanted', (site, w, made, put)) ↦
            ap (find k) put
            ∙ find-assign_ne (sites_key subdomain staging) k site s.sites (λ q. ne (sym q))
      ]

  -- The site under a key is absent as it was in `s`, or stands in the place of one that was loaded
  -- in `s` and was made from `xml`.
  abbrev pub Reloaded : Bytes → Bool → Bytes → State b → State b → Type 0
  Reloaded subdomain staging xml s s' =
      ((find (sites_key subdomain staging) s.sites ≡ none)
        × (find (sites_key subdomain staging) s'.sites ≡ none))
      ⊎ ((old : Site b.feeds.Doc) × (site : Site b.feeds.Doc) × (w : b.feeds.World) × (find
              (sites_key subdomain staging) s.sites
            ≡ some old)
          × (find (sites_key subdomain staging) s'.sites ≡ some site)
          × ((new_site test_mode b.feeds subdomain staging xml w).0 ≡ ok site))

  load_again-Reloaded :
      (subdomain : Bytes) (staging : Bool) (xml : Bytes) (s₀ s s' : State b)
      → load_again b test_mode
          (is_loaded b test_mode (sites_key subdomain staging) s₀)
          subdomain
          staging
          xml
          s
        ≡ (ok tt, s')
      → find (sites_key subdomain staging) s.sites ≡ none
      → Reloaded subdomain staging xml s₀ s'
  load_again-Reloaded subdomain staging xml s₀ s s' h gone =
      elim (load_again-ok (is_loaded b test_mode (sites_key subdomain staging) s₀) subdomain staging
        xml s s' h).0 [
          | inl (unwanted, same) ↦
              inl (ground arith, ap (find (sites_key subdomain staging)) same ∙ gone)
          | inr (wanted', (site, w, made, put)) ↦
              elim (Option-cases (find (sites_key subdomain staging) s₀.sites)) [
                | inl none' ↦ absurd (ground arith)
                | inr (old, there) ↦ inr (
                  old,
                  site,
                  w,
                  there,
                  ap (find (sites_key subdomain staging)) put
                      ∙ find-assign_self (sites_key subdomain staging) site s.sites,
                  made,
                )
              ]
        ]

  Reloaded-kept :
      (subdomain : Bytes) (staging : Bool) (xml : Bytes) (s u s' : State b)
      → find (sites_key subdomain staging) s'.sites ≡ find (sites_key subdomain staging) u.sites
      → Reloaded subdomain staging xml s u
      → Reloaded subdomain staging xml s s'
  Reloaded-kept subdomain staging xml s u s' same (inl (h, gone)) = inl (h, same ∙ gone)
  Reloaded-kept subdomain staging xml s u s' same (inr (old, site, w, h, there, made)) =
      inr (old, site, w, h, same ∙ there, made)

  -- `reloadSite`, when it returns: a site of the subdomain is loaded if it was before, and was then
  -- built from the feed that the call read; no other site has changed, nor a session.
  pub reload_site_same :
      (subdomain : Bytes) (s s' : State b)
      → reload_site b test_mode subdomain s ≡ (ok tt, s')
      → ((staging : Bool)
          → Reloaded subdomain staging
              (b.feeds.read_s3 (subdomain ++ bytes "-feed.xml") s.world).0
              s
              s')
        × ((k : Bytes)
            → k ≢ sites_key subdomain false
            → k ≢ sites_key subdomain true
            → find k s'.sites ≡ find k s.sites)
        × (s'.sessions ≡ s.sessions)
  unfolding reload_site
  reload_site_same subdomain s s' h =
      let (xml, w) = b.feeds.read_s3 (subdomain ++ bytes "-feed.xml") s.world in
      let key₀ = sites_key subdomain false in
      let key₁ = sites_key subdomain true in
      let (rest, t, freed, h₁) = >>=-eq-ok (reset_sites b test_mode subdomain [] true) _ _ h in
      let (rest', u, first, second) =
        >>=-eq-ok (load_again b test_mode (is_loaded b test_mode key₀ s) subdomain false xml) _ _
          h₁ in
      let (t', free, gone₀, gone₁, others, sessions) =
        reset_sites_forced subdomain [] (record s { world = w }) in
      let same : t ≡ t' = ground (arith, freed, free) in
      let first' : load_again b test_mode (is_loaded b test_mode key₀ s) subdomain false xml t'
          ≡ (ok tt, u) =
        rw (sym same) first in
      let other₁ = load_again_other (is_loaded b test_mode key₀ s) subdomain false xml t' u in
      let other₂ = load_again_other (is_loaded b test_mode key₁ s) subdomain true xml u s' in
      (
        λ staging. elim staging as (λ (x : Bool). Reloaded subdomain x xml s s') [
          | false ↦
              Reloaded-kept subdomain false xml s u s'
                (other₂ key₀ second (site_keys_differ b test_mode subdomain))
                (load_again-Reloaded subdomain false xml s t' u first' gone₀)
          | true ↦
              load_again-Reloaded subdomain true xml s u s' second
                (other₁ key₁ first' (λ q. site_keys_differ b test_mode subdomain (sym q)) ∙ gone₁)
        ],
        λ k ne ne'. other₂ k second ne' ∙ other₁ k first' ne ∙ others k ne ne',
        (load_again-ok (is_loaded b test_mode key₁ s) subdomain true xml u s' second).1
            ∙ (load_again-ok (is_loaded b test_mode key₀ s) subdomain false xml t' u first').1
            ∙ sessions,
      )
