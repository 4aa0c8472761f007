-- ===== src/Handler/Sites/Laws.antt =====
-- What the site calls guard, and what they leave alone.
use vae_thrift.Prelude.{◌≡◌, ◌≢◌, Bool, some, arith}
use vae_thrift.Prelude.Bytes.{Bytes}
use vae_thrift.Prelude.Eq.{bytes_eq}
use vae_thrift.Prelude.Map.{find, assign, find-assign}
use vae_thrift.Exec.{ok, raise, Error}
use vae_thrift.Site.{Site, new_site, validate_secret_key}
use vae_thrift.Handler.State.{Backend, State}
use vae_thrift.Handler.Sites.{sites_key, get_site_mutex, loaded_site, load_site, get_site}

module _ (b : Backend) (test_mode : Bool) where
  pub load_site-ok :
      (subdomain : Bytes) (staging : Bool) (xml : Bytes) (s s' : State b) (site : Site b.feeds.Doc)
      → load_site b test_mode subdomain staging xml s ≡ (ok site, s')
      → ((new_site test_mode b.feeds subdomain staging xml s.world).0 ≡ ok site)
        × (s'.sites ≡ assign (sites_key subdomain staging) site s.sites)
        × (s'.sessions ≡ s.sessions)
  unfolding load_site
  load_site-ok subdomain staging xml s s' site h = ground arith

  loaded_site-some :
      (key secret_key : Bytes) (s s' : State b) (site : Site b.feeds.Doc)
      → loaded_site b test_mode key secret_key s ≡ (ok (some site), s')
      → (find key s.sites ≡ some site)
        × (validate_secret_key test_mode site secret_key ≡ ok tt)
        × (s' ≡ s)
  unfolding loaded_site
  loaded_site-some key secret_key s s' site h = ground arith

  -- A caller of `getSite` gets a site only if its secret key is one of the site's (or in test
  -- mode). The site is then the one loaded under its key, no other site has changed, and no session.
  pub get_site_checked :
      (subdomain secret_key : Bytes) (staging : Bool) (s s' : State b) (site : Site b.feeds.Doc)
      → get_site b test_mode subdomain secret_key staging s ≡ (ok site, s')
      → (validate_secret_key test_mode site secret_key ≡ ok tt)
        × (find (sites_key subdomain staging) s'.sites ≡ some site)
        × ((k : Bytes) → k ≢ sites_key subdomain staging → find k s'.sites ≡ find k s.sites)
        × (s'.sessions ≡ s.sessions)
  unfolding get_site get_site_mutex
  get_site_checked subdomain secret_key staging s s' site h = (
    ground arith,
    ground (
      arith,
      find-assign (sites_key subdomain staging) (sites_key subdomain staging) site s.sites,
    ),
    λ k ne. ground (arith, find-assign (sites_key subdomain staging) k site s.sites),
    ground arith,
  )

  -- A call with a key that is not one of a loaded site's throws, and leaves the sites as they were.
  pub get_site_refused :
      (subdomain secret_key : Bytes) (staging : Bool) (s : State b) (site : Site b.feeds.Doc)
      (e : Error)
      → find (sites_key subdomain staging) s.sites ≡ some site
      → validate_secret_key test_mode site secret_key ≡ raise e
      → ((get_site b test_mode subdomain secret_key staging s).0 ≡ raise e)
        × ((get_site b test_mode subdomain secret_key staging s).1.sites ≡ s.sites)
        × ((get_site b test_mode subdomain secret_key staging s).1.sessions ≡ s.sessions)
  unfolding get_site get_site_mutex
  get_site_refused subdomain secret_key staging s site e there wrong =
      (ground arith, ground arith, ground arith)
