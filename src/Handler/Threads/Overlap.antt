-- ===== src/Handler/Threads/Overlap.antt =====
-- Two reloads of one subdomain at a time.
use vae_thrift.Prelude.{ℕ, ◌≡◌, ◌≢◌, refl, Bool, true, false, none, some, [], ◌∷◌, ◌++◌, arith}
use vae_thrift.Prelude.Bytes.{Bytes, bytes}
use vae_thrift.Prelude.Eq.{bytes_eq}
use vae_thrift.Prelude.Map.{Map, find, assign, erase, find-erase}
use vae_thrift.Exec.{ok}
use vae_thrift.Site.{Feeds, Site, new_site}
use vae_thrift.Handler.Sites.{sites_key}
use vae_thrift.Handler.Threads.{
  counting, fetching, unloading, restoring, remaking, reputting, ended, Shared, at_key, move, take,
  give, kinds, made_site, advance, Reach, here, next,
}
use vae_thrift.Handler.Threads.Stale.{stands_at, goes_from, kinds_empty}

module _ (f : Feeds) (test_mode : Bool) where
  kinds_production :
      (subdomain : Bytes) (sites : Map Bytes (Site f.Doc)) (site : Site f.Doc)
      → find (sites_key subdomain false) sites ≡ some site
      → find (sites_key subdomain true) sites ≡ none
      → kinds f subdomain sites ≡ false ∷ []
  unfolding kinds
  kinds_production subdomain sites site e h = rw (e, h) refl

  -- After the two are erased, neither is there.
  erased_both :
      (subdomain : Bytes) (sites : Map Bytes (Site f.Doc)) (staging : Bool)
      → find
          (sites_key subdomain staging)
          (erase (sites_key subdomain true) (erase (sites_key subdomain false) sites))
        ≡ none
  erased_both subdomain sites false = ground (
    arith,
    find-erase (sites_key subdomain true) (sites_key subdomain false)
        (erase (sites_key subdomain false) sites),
    find-erase (sites_key subdomain false) (sites_key subdomain false) sites,
  )
  erased_both subdomain sites true = ground (
    arith,
    find-erase (sites_key subdomain true) (sites_key subdomain true)
        (erase (sites_key subdomain false) sites),
  )

  -- Two threads `a` and `b` that are about to reload a subdomain, of which the production site is loaded
  -- and its mutex free, can both come to their ends with no site of the subdomain loaded, although
  -- the feed that was read makes a site: `b` counts the sites while `a` has unloaded its own, and so
  -- unloads what `a` has loaded again, and loads nothing.
  pub reloads_lose :
      (s : Shared f) (a b : ℕ) (subdomain : Bytes) (old site : Site f.Doc) (w : f.World)
      → a ≢ b
      → s.threads a ≡ counting subdomain
      → s.threads b ≡ counting subdomain
      → find (sites_key subdomain false) s.sites ≡ some old
      → find (sites_key subdomain true) s.sites ≡ none
      → s.held (sites_key subdomain false) ≡ none
      → let (xml, w₀) = f.read_s3 (subdomain ++ bytes "-feed.xml") s.world in
        new_site test_mode f subdomain false xml w₀ ≡ (ok site, w)
        → (s' : Shared f) × Reach f test_mode s s'
          × (s'.threads a ≡ ended)
          × (s'.threads b ≡ ended)
          × ((staging : Bool) → find (sites_key subdomain staging) s'.sites ≡ none)
  unfolding advance made_site take
  reloads_lose s a b subdomain old site w other at_a at_b e h free made =
      let object = subdomain ++ bytes "-feed.xml" in
      let k = sites_key subdomain false in
      let xml = (f.read_s3 object s.world).0 in
      let both =
        λ (sites : Map Bytes (Site f.Doc)). erase (sites_key subdomain true) (erase k sites) in
      let s₁ = move f a (fetching subdomain (false ∷ [])) s in
      let s₂ =
        move f a (unloading subdomain (false ∷ []) xml)
          (record s₁ { world = (f.read_s3 object s.world).1 }) in
      let s₃ =
        move f a (restoring subdomain (false ∷ []) xml) (record s₂ { sites = both s.sites }) in
      let s₄ = move f b (fetching subdomain []) s₃ in
      let s₅ =
        move f a (remaking subdomain false [] xml)
          (record s₄ { held = at_key f s₄.held k (some a) }) in
      let s₆ = move f a (reputting subdomain false [] xml site) (record s₅ { world = w }) in
      let s₇ =
        give f a k (restoring subdomain [] xml) (record s₆ { sites = assign k site s₆.sites }) in
      let s₈ = move f a ended s₇ in
      let s₉ =
        move f b (unloading subdomain [] (f.read_s3 object w).0)
          (record s₈ { world = (f.read_s3 object w).1 }) in
      let s₁₀ =
        move f b (restoring subdomain [] (f.read_s3 object w).0)
          (record s₉ { sites = both s₉.sites }) in
      let s₁₁ = move f b ended s₁₀ in
      let go = goes_from f test_mode in
      let counts : kinds f subdomain s₃.sites ≡ [] =
        kinds_empty f test_mode subdomain s₃.sites (erased_both subdomain s.sites false)
          (erased_both subdomain s.sites true) in
      let first : Reach f test_mode s s₃ =
        next
          (next
            (next here (go s s₁ a _ at_a (rw (kinds_production subdomain s.sites old e h) refl)))
            (go s₁ s₂ a _ (stands_at f test_mode s a _) refl))
          (go s₂ s₃ a _ (stands_at f test_mode s₁ a _) refl) in
      let middle : Reach f test_mode s s₅ =
        next (next first (go s₃ s₄ b (counting subdomain) (ground (arith, at_b)) (rw counts refl)))
          (go s₄ s₅ a (restoring subdomain (false ∷ []) xml) (ground arith)
            (rw (take, free) refl)) in
      let again : Reach f test_mode s s₈ =
        next
          (next (next middle (go s₅ s₆ a _ (stands_at f test_mode s₄ a _) (rw made refl)))
            (go s₆ s₇ a _ (stands_at f test_mode s₅ a _) refl))
          (go s₇ s₈ a _ (stands_at f test_mode s₆ a _) refl) in
      let lost : Reach f test_mode s s₁₁ =
        next
          (next (next again (go s₈ s₉ b (fetching subdomain []) (ground arith) refl))
            (go s₉ s₁₀ b _ (stands_at f test_mode s₈ b _) refl))
          (go s₁₀ s₁₁ b _ (stands_at f test_mode s₉ b _) refl) in
      (s₁₁, lost, ground arith, ground arith, erased_both subdomain s₉.sites)
