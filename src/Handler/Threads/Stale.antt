-- ===== src/Handler/Threads/Stale.antt =====
-- A reload of a site that another thread is about to load.
use vae_thrift.Prelude.{ℕ, ◌≡◌, ◌≢◌, refl, Bool, true, false, none, some, [], ◌++◌, arith}
use vae_thrift.Prelude.Bytes.{Bytes, bytes}
use vae_thrift.Prelude.Eq.{bytes_eq}
use vae_thrift.Prelude.Map.{Map, find, assign, erase, find-assign_self}
use vae_thrift.Exec.{ok}
use vae_thrift.Site.{Feeds, Site, new_site}
use vae_thrift.Handler.Sites.{sites_key}
use vae_thrift.Handler.Threads.{
  Request, key_of, Thread, idle, loading, putting, checking, counting, fetching, unloading,
  restoring, ended, Shared, move, kinds, made_site, advance, reload_site_call, Step, goes, call,
  Reach, here, next,
}

module _ (f : Feeds) (test_mode : Bool) where
  pub stands_at : (s : Shared f) (u : ℕ) (th : Thread f) → (move f u th s).threads u ≡ th
  stands_at s u th = ground arith

  pub stands_still :
      (s : Shared f) (t u : ℕ) (th : Thread f) → u ≢ t → (move f u th s).threads t ≡ s.threads t
  stands_still s t u th h = ground arith

  pub goes_from :
      (s s' : Shared f) (u : ℕ) (th : Thread f)
      → s.threads u ≡ th
      → advance f test_mode u th s ≡ some s'
      → Step f test_mode s s'
  goes_from s s' u th e h = goes u s' (rw e h)

  pub kinds_empty :
      (subdomain : Bytes) (sites : Map Bytes (Site f.Doc))
      → find (sites_key subdomain false) sites ≡ none
      → find (sites_key subdomain true) sites ≡ none
      → kinds f subdomain sites ≡ []
  unfolding kinds
  kinds_empty subdomain sites e h = rw (e, h) refl

  -- The states between: the reload counts no site, reads the feed, and ends; the site comes after it.
  abbrev called : ℕ → Bytes → Shared f → Shared f
  called u subdomain s = move f u (counting subdomain) s

  abbrev counted : ℕ → Bytes → Shared f → Shared f
  counted u subdomain s = move f u (fetching subdomain []) (called u subdomain s)

  abbrev fetched : ℕ → Bytes → Shared f → Shared f
  fetched u subdomain s =
      let (xml, w) = f.read_s3 (subdomain ++ bytes "-feed.xml") s.world in
      move f u (unloading subdomain [] xml) (record (counted u subdomain s) { world = w })

  abbrev unloaded : ℕ → Bytes → Shared f → Shared f
  unloaded u subdomain s =
      move f u (restoring subdomain [] (f.read_s3 (subdomain ++ bytes "-feed.xml") s.world).0)
        (record (fetched u subdomain s) {
          sites = erase (sites_key subdomain true) (erase (sites_key subdomain false) s.sites);
        })

  abbrev reloaded : ℕ → Bytes → Shared f → Shared f
  reloaded u subdomain s = move f u ended (unloaded u subdomain s)

  reload_nothing :
      (s : Shared f) (u : ℕ) (subdomain : Bytes)
      → s.threads u ≡ idle
      → find (sites_key subdomain false) s.sites ≡ none
      → find (sites_key subdomain true) s.sites ≡ none
      → Reach f test_mode s (fetched u subdomain s)
        × Reach f test_mode (fetched u subdomain s) (reloaded u subdomain s)
  unfolding advance
  reload_nothing s u subdomain free e h = (
    next
        (next (next here (call u (counting subdomain) free (reload_site_call subdomain))) (
          goes_from (called u subdomain s) (counted u subdomain s) u (counting subdomain)
            (stands_at s u (counting subdomain)) (rw (kinds_empty subdomain s.sites e h) refl)))
        (goes_from (counted u subdomain s) (fetched u subdomain s) u (fetching subdomain [])
          (stands_at (called u subdomain s) u (fetching subdomain [])) refl),
    next
        (next here (
          goes_from (fetched u subdomain s) (unloaded u subdomain s) u _
            (stands_at (counted u subdomain s) u _) refl))
        (goes_from (unloaded u subdomain s) (reloaded u subdomain s) u _
          (stands_at (fetched u subdomain s) u _) refl),
  )

  -- Where `getSite` has read a feed and neither site of its subdomain is loaded, a reload of the
  -- subdomain on another thread can read the feed anew and come to its end, and still the site that
  -- stands in `sites` afterwards is made from the feed that was read before the reload: it counts the
  -- sites before it waits for anything, so a site on its way is none of those it loads again.
  pub reload_misses :
      (s : Shared f) (t u : ℕ) (d : Request) (xml : Bytes) (site : Site f.Doc) (w : f.World)
      → u ≢ t
      → s.threads t ≡ loading d xml
      → s.threads u ≡ idle
      → find (sites_key d.subdomain false) s.sites ≡ none
      → find (sites_key d.subdomain true) s.sites ≡ none
      → new_site test_mode f d.subdomain d.staging xml
          (f.read_s3 (d.subdomain ++ bytes "-feed.xml") s.world).1
        ≡ (ok site, w)
      → (s₁ s₂ : Shared f) × Reach f test_mode s s₁
        × (s₁.threads u
            ≡ unloading d.subdomain [] (f.read_s3 (d.subdomain ++ bytes "-feed.xml") s.world).0)
        × Reach f test_mode s₁ s₂
        × (s₂.threads u ≡ ended)
        × (find (key_of d) s₂.sites ≡ some site)
  unfolding advance made_site
  reload_misses s t u d xml site w other load free e h made =
      let (first, second) = reload_nothing s u d.subdomain free e h in
      let s₁ = reloaded u d.subdomain s in
      let s₂ = move f t (putting d site) (record s₁ { world = w }) in
      let s₃ = move f t (checking d site) (record s₂ { sites = assign (key_of d) site s₂.sites }) in
      (
        fetched u d.subdomain s,
        s₃,
        first,
        stands_at (counted u d.subdomain s) u _,
        next (next second (goes_from s₁ s₂ t (loading d xml) (ground arith) (rw made refl))) (
            goes_from s₂ s₃ t (putting d site)
              (stands_at (record s₁ { world = w }) t (putting d site)) refl),
        ground arith,
        find-assign_self (key_of d) site s₂.sites,
      )
