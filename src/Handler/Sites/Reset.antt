-- ===== src/Handler/Sites/Reset.antt =====
-- What `resetSite` does to the loaded sites.
use vae_thrift.Prelude.{
  ◌≡◌, ◌≢◌, refl, sym, ap, ◌∙◌, ◌⊎◌, inl, inr, Bool, true, false, none, some, arith, length,
  length-append,
}
use vae_thrift.Prelude.Bytes.{Bytes, bytes}
use vae_thrift.Prelude.Eq.{Bytes-discrete, bytes_eq}
use vae_thrift.Prelude.Map.{find, find-erase}
use vae_thrift.Exec.{Result, ok}
use vae_thrift.Site.{Site, validate_secret_key}
use vae_thrift.Handler.State.{Backend, State}
use vae_thrift.Handler.Sites.{sites_key, erase_site, reset_sites}

module _ (b : Backend) (test_mode : Bool) where
  erase_site_other :
      (key secret_key : Bytes) (force : Bool) (s : State b) (k : Bytes)
      → key ≢ k
      → find k (erase_site b test_mode key secret_key force s).1.sites ≡ find k s.sites
  unfolding erase_site
  erase_site_other key secret_key force s k ne = ground (arith, find-erase key k s.sites)

  erase_site_absent :
      (key secret_key : Bytes) (force : Bool) (s : State b) (k : Bytes)
      → find k s.sites ≡ none
      → find k (erase_site b test_mode key secret_key force s).1.sites ≡ none
  unfolding erase_site
  erase_site_absent key secret_key force s k h = ground (arith, find-erase key k s.sites)

  erase_site-ok :
      (key secret_key : Bytes) (force : Bool) (s : State b)
      → (erase_site b test_mode key secret_key force s).0 ≡ ok tt
      → find key (erase_site b test_mode key secret_key force s).1.sites ≡ none
  unfolding erase_site
  erase_site-ok key secret_key force s h = ground (arith, find-erase key key s.sites)

  -- What a call with `secret_key` may have done to the site loaded under `k`.
  abbrev pub KeptOrFreed : Bytes → State b → State b → Bytes → Site b.feeds.Doc → Type 0
  KeptOrFreed secret_key s s' k site =
      (find k s'.sites ≡ some site)
      ⊎ ((find k s'.sites ≡ none) × (validate_secret_key test_mode site secret_key ≡ ok tt))

  erase_site-KeptOrFreed :
      (key secret_key : Bytes) (s : State b) (k : Bytes) (site : Site b.feeds.Doc)
      → find k s.sites ≡ some site
      → KeptOrFreed secret_key s (erase_site b test_mode key secret_key false s).1 k site
  unfolding erase_site
  erase_site-KeptOrFreed key secret_key s k site h = elim (Bytes-discrete key k) [
    | no ne ↦ inl (ground (arith, find-erase key k s.sites))
    | yes e ↦ ground (arith, find-erase key k s.sites)
  ]

  pub site_keys_differ : (subdomain : Bytes) → sites_key subdomain false ≢ sites_key subdomain true
  site_keys_differ subdomain h =
      omega (arith, ap length h, length-append subdomain (bytes ".staging"))

  reset_sites-eq :
      (subdomain secret_key : Bytes) (force : Bool) (s : State b)
      → (r : Result (Unit {0})) × (s₁ : State b) × (erase_site b test_mode
            (sites_key subdomain false)
            secret_key
            force
            s
          ≡ (r, s₁))
        × (((r ≡ ok tt)
              × (reset_sites b test_mode subdomain secret_key force s
                  ≡ erase_site b test_mode (sites_key subdomain true) secret_key force s₁))
            ⊎ ((r ≢ ok tt) × (reset_sites b test_mode subdomain secret_key force s ≡ (r, s₁))))
  unfolding reset_sites
  reset_sites-eq subdomain secret_key force s = (
    (erase_site b test_mode (sites_key subdomain false) secret_key force s).0,
    (erase_site b test_mode (sites_key subdomain false) secret_key force s).1,
    refl,
    ground arith,
  )

  -- `resetSite` unloads only the production and the staging site of its subdomain, each only if the
  -- secret key is one of that site's (or in test mode); when it returns, neither of them is loaded.
  pub reset_sites_checked :
      (subdomain secret_key : Bytes) (s s' : State b) (r : Result (Unit {0}))
      → reset_sites b test_mode subdomain secret_key false s ≡ (r, s')
      → ((k : Bytes)
          → k ≢ sites_key subdomain false
          → k ≢ sites_key subdomain true
          → find k s'.sites ≡ find k s.sites)
        × ((k : Bytes) (site : Site b.feeds.Doc)
            → find k s.sites ≡ some site
            → KeptOrFreed secret_key s s' k site)
        × (r ≡ ok tt
            → (find (sites_key subdomain false) s'.sites ≡ none)
              × (find (sites_key subdomain true) s'.sites ≡ none))
  reset_sites_checked subdomain secret_key s s' r h =
      let s₁ = (erase_site b test_mode (sites_key subdomain false) secret_key false s).1 in
      let s₂ = (erase_site b test_mode (sites_key subdomain true) secret_key false s₁).1 in
      let (r₁, t, e, c) = reset_sites-eq subdomain secret_key false s in
      let at_first : t ≡ s₁ = ground (arith, e) in
      elim c [
        | inl (done, f) ↦
            let last : s' ≡ s₂ = ground (arith, h, f, at_first) in
            let fine₁ : (erase_site b test_mode (sites_key subdomain false) secret_key false s).0
                ≡ ok tt =
              ground (arith, e, done) in
            (
              λ k ne ne'. rw last (
                  erase_site_other (sites_key subdomain true) secret_key false s₁ k
                    (λ q. ne' (sym q))
                  ∙ erase_site_other (sites_key subdomain false) secret_key false s k
                      (λ q. ne (sym q))),
              λ k site there.
                  elim (erase_site-KeptOrFreed (sites_key subdomain false) secret_key s k site
                    there) [
                      | inl kept ↦ rw last (
                          erase_site-KeptOrFreed (sites_key subdomain true) secret_key s₁ k site
                            kept)
                      | inr (gone, checked) ↦ inr (
                        rw last (
                            erase_site_absent (sites_key subdomain true) secret_key false s₁ k
                              gone),
                        checked,
                      )
                    ],
              λ fine. (
                rw last (
                    erase_site_absent (sites_key subdomain true) secret_key false s₁
                      (sites_key subdomain false)
                      (erase_site-ok (sites_key subdomain false) secret_key false s fine₁)),
                rw last (
                    erase_site-ok (sites_key subdomain true) secret_key false s₁
                      (ground (arith, h, f, at_first, fine))),
              ),
            )
        | inr (thrown, f) ↦
            let last : s' ≡ s₁ = ground (arith, h, f, at_first) in
            (
              λ k ne ne'. rw last (
                  erase_site_other (sites_key subdomain false) secret_key false s k
                    (λ q. ne (sym q))),
              λ k site there.
                  rw last
                    (erase_site-KeptOrFreed (sites_key subdomain false) secret_key s k site there),
              λ fine. absurd (thrown (ground (arith, h, f))),
            )
      ]
