-- ===== src/Handler/Sites.antt =====
-- The sites of the handler: `getSite`, `resetSite`, `reloadSite` and their helpers.
pub mod Laws
pub mod Reset
pub mod Reload
use vae_thrift.Prelude.{
  ℕ, zero, suc, ◌+◌, if◌then◌else◌, Bool, true, false, Option, none, some, List, [], ◌∷◌, ◌++◌,
  length,
}
use vae_thrift.Prelude.Int.{ℤ}
use vae_thrift.Prelude.Bytes.{Bytes, bytes}
use vae_thrift.Prelude.Eq.{bytes_eq}
use vae_thrift.Prelude.Map.{Map, find, assign, erase}
use vae_thrift.Exec.{Result, ok, raise, Exec, pure, lift, modify, gets, ◌>>=◌, ◌>>◌}
use vae_thrift.Site.{Feeds, Site, new_site, validate_secret_key}
use vae_thrift.Handler.State.{Backend, State, outside}

abbrev pub sites_key : Bytes → Bool → Bytes
sites_key subdomain staging = if staging then subdomain ++ bytes ".staging" else subdomain

module _ (b : Backend) (test_mode : Bool) where
  -- `_get_site_mutex`: a new mutex has an address of its own.
  unfoldable pub get_site_mutex : Bytes → Bool → Exec (State b) ℕ
  get_site_mutex subdomain staging s =
      let key = sites_key subdomain staging in
      elim (find key s.site_mutexes) [
        | some mutex ↦ (ok mutex, s)
        | none ↦
            let fresh = length s.site_mutexes in
            (ok fresh, record s { site_mutexes = assign key fresh s.site_mutexes })
      ]

  -- `_getSite`: the null `shared_ptr` is `none`.
  unfoldable pub loaded_site : Bytes → Bytes → Exec (State b) (Option (Site b.feeds.Doc))
  loaded_site key secret_key s = elim (find key s.sites) [
    | none ↦ (ok none, s)
    | some site ↦ (do lift (validate_secret_key test_mode site secret_key); pure (some site)) s
  ]

  -- `_loadSite`: what the constructor throws leaves `sites` as it was.
  unfoldable pub load_site : Bytes → Bool → Bytes → Exec (State b) (Site b.feeds.Doc)
  load_site subdomain staging xml = do
    site ← λ s.
        let (r, w) = new_site test_mode b.feeds subdomain staging xml s.world in
        (r, record s { world = w })
    modify λ s. record s { sites = assign (sites_key subdomain staging) site s.sites }
    pure site

  -- `read_s3(subdomain+"-feed.xml")`
  abbrev pub read_feed : Bytes → Exec (State b) Bytes
  read_feed subdomain = outside b (b.feeds.read_s3 (subdomain ++ bytes "-feed.xml"))

  -- `getSite`. The site's mutex is held from the first line on.
  unfoldable pub get_site : Bytes → Bytes → Bool → Exec (State b) (Site b.feeds.Doc)
  unfolding loaded_site load_site
  get_site subdomain secret_key staging = do
    mutex ← get_site_mutex subdomain staging
    found ← loaded_site (sites_key subdomain staging) secret_key
    elim found [
      | some site ↦ pure site
      | none ↦ do
        xml ← if test_mode then pure [] else read_feed subdomain
        site ← load_site subdomain staging xml
        lift (validate_secret_key test_mode site secret_key)
        pure site
    ]

  -- `_eraseSite`, with the test `sites.count(key)` that `_resetSite` makes before it.
  unfoldable pub erase_site : Bytes → Bytes → Bool → Exec (State b) (Unit {0})
  erase_site key secret_key force s = elim (find key s.sites) [
    | none ↦ (ok tt, s)
    | some site ↦
        (do
          if force then pure tt else lift (validate_secret_key test_mode site secret_key)
          modify λ s. record s { sites = erase key s.sites })
          s
  ]

  -- `_resetSite`
  unfoldable pub reset_sites : Bytes → Bytes → Bool → Exec (State b) (Unit {0})
  reset_sites subdomain secret_key force = do
    erase_site (sites_key subdomain false) secret_key force
    erase_site (sites_key subdomain true) secret_key force

  -- Whether a site is loaded: `sites.count(key) > 0`.
  abbrev pub is_loaded : Bytes → State b → Bool
  is_loaded key s = elim (find key s.sites) [ none ↦ false | some site ↦ true ]

  -- One of the two `if`s of `reloadSite`.
  unfoldable pub load_again : Bool → Bytes → Bool → Bytes → Exec (State b) (Unit {0})
  unfolding load_site
  load_again wanted subdomain staging xml =
      if wanted
      then (do
        mutex ← get_site_mutex subdomain staging
        site ← load_site subdomain staging xml
        pure tt)
      else pure tt

  unfoldable pub reload_site : Bytes → Exec (State b) (Unit {0})
  unfolding reset_sites load_again
  reload_site subdomain = do
    reload_prod ← gets (is_loaded (sites_key subdomain false))
    reload_staging ← gets (is_loaded (sites_key subdomain true))
    xml ← read_feed subdomain
    reset_sites subdomain [] true
    load_again reload_prod subdomain false xml
    load_again reload_staging subdomain true xml
