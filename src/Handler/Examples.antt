-- ===== src/Handler/Examples.antt =====
-- A server with one site, and the calls that load, reset and reload it.
mod Calls
use vae_thrift.Prelude.{
  ℕ, ◌+◌, ◌≡◌, ◌≢◌, ◌<◌, ◌≤◌, refl, ◌⊎◌, inl, inr, Bool, true, false, Option, none, some, List, [],
  ◌∷◌, ◌++◌, arith, ℕ_discrete,
}
use vae_thrift.Prelude.Int.{ℤ, pos, negsuc, ◌+ℤ◌}
use vae_thrift.Prelude.Bytes.{Bytes, bytes}
use vae_thrift.Prelude.Eq.{ℤ-discrete, Bytes-discrete, int_eq, bytes_eq}
use vae_thrift.Prelude.Map.{Map, find, assign, erase}
use vae_thrift.Exec.{Result, ok, raise, undefined, diverges, internal_error}
use vae_thrift.Site.{Feeds, Site, key_found, validate_secret_key, read_keys, new_site}
use vae_thrift.Session.{Responses, Session, new_session}
use vae_thrift.Session.Examples.{echo}
use vae_thrift.QueryLog.Entry.{QueryLog, Entry}
use vae_thrift.Handler.State.{Backend, State}
use vae_thrift.Handler.Sites.{
  sites_key, get_site_mutex, loaded_site, load_site, get_site, erase_site, reset_sites, is_loaded,
  load_again, reload_site,
}
use vae_thrift.Handler.Sites.Laws.{get_site_checked, get_site_refused}
use vae_thrift.Handler.Sites.Reset.{KeptOrFreed, reset_sites_checked}
use vae_thrift.Handler.Sites.Reload.{Reloaded, reload_site_same}

-- The world counts what was asked of it. Every feed is a document of its own text, and `key` is the
-- one secret key of each site.
abbrev pub feeds : Feeds
feeds = record {
  World = ℕ;
  Doc = Bytes;
  read_s3 = λ name w. (name, w + 1);
  split_keys = λ text. bytes "key" ∷ [];
  load_xml_doc = λ subdomain staging xml. ok (xml, pos 1);
}

abbrev pub backend : Backend
backend = record {
  feeds = feeds;
  responses = echo;
  show = λ n. [];
  time = λ w. w;
  microseconds = λ w. w;
  rand = λ w. (pos w, w + 1);
  memcache_get = λ key flags w. ([], w + 1);
  memcache_set = λ key value flags expiry w. w + 1;
  memcache_remove = λ key w. w + 1;
  session_cache_get = λ sub key w. ([], w + 1);
  session_cache_set = λ sub key value w. w + 1;
  session_cache_delete = λ sub key w. w + 1;
  long_term_cache_get = λ sub key renew w. ([], w + 1);
  long_term_cache_set = λ sub key value expiry file w. w + 1;
  long_term_cache_delete = λ sub key w. w + 1;
  long_term_cache_empty = λ sub w. w + 1;
  long_term_cache_sweeper_info = λ sub w. ([], w + 1);
  lock = λ sub w. (pos 0, w + 1);
  unlock = λ sub w. (pos 0, w + 1);
}

abbrev pub blog : Site Bytes
blog = record {
  generation = pos 1;
  subdomain = bytes "blog";
  secret_keys = bytes "key" ∷ [];
  staging_mode = false;
  doc = bytes "blog-feed.xml";
}

abbrev pub blog_session : Session {Site = Site Bytes} echo
blog_session = record { created_at = 3; responses = bytes "/posts" ∷ []; site = blog }

abbrev pub no_entry : Entry
no_entry = record { query_id = 0; start_time = 0; sslog = []; subdomain = []; method_name = [] }

abbrev pub started : State backend
started = record {
  sessions = [];
  sites = [];
  site_mutexes = [];
  log = record { out = none; query_id = 0 };
  entry = no_entry;
  world = 0;
}

-- One site is loaded, and one session is open, under the number 4.
abbrev pub running : State backend
running = record started {
  sessions = (pos 4, blog_session) ∷ [];
  sites = (bytes "blog", blog) ∷ [];
  world = 2;
}

first_load : get_site backend false (bytes "blog") (bytes "key") false started ≡ (
  ok blog,
  record started {
    sites = (bytes "blog", blog) ∷ [];
    site_mutexes = (bytes "blog", 0) ∷ [];
    world = 2;
  },
)
unfolding get_site get_site_mutex loaded_site load_site new_site read_keys validate_secret_key
    key_found find assign Bytes-discrete ℕ_discrete
first_load = refl

abbrev loaded : State backend
loaded = record started {
  sites = (bytes "blog", blog) ∷ [];
  site_mutexes = (bytes "blog", 0) ∷ [];
  world = 2;
}

get_site_checked_example :
    (validate_secret_key false blog (bytes "key") ≡ ok tt)
    × (find (bytes "blog") loaded.sites ≡ some blog)
    × ((k : Bytes) → k ≢ bytes "blog" → find k loaded.sites ≡ find k started.sites)
    × (loaded.sessions ≡ started.sessions)
get_site_checked_example =
    get_site_checked backend false (bytes "blog") (bytes "key") false started loaded blog first_load

wrong_key :
    validate_secret_key false blog (bytes "guess")
    ≡ raise (internal_error (bytes "Secret Key Mismatch"))
unfolding validate_secret_key key_found Bytes-discrete ℕ_discrete
wrong_key = refl

blog_loaded : find (bytes "blog") running.sites ≡ some blog
unfolding find Bytes-discrete ℕ_discrete
blog_loaded = refl

reset_blog :
    reset_sites backend false (bytes "blog") (bytes "key") false running
    ≡ (ok tt, record running { sites = [] })
unfolding reset_sites erase_site validate_secret_key key_found find erase Bytes-discrete ℕ_discrete
reset_blog = refl

reset_sites_checked_example :
    ((k : Bytes)
      → k ≢ bytes "blog"
      → k ≢ bytes "blog.staging"
      → find {V = Site Bytes} k [] ≡ find k running.sites)
    × ((k : Bytes) (site : Site Bytes)
        → find k running.sites ≡ some site
        → KeptOrFreed backend false (bytes "key") running (record running { sites = [] }) k site)
    × (ok (tt {0}) ≡ ok tt
        → (find {V = Site Bytes} (bytes "blog") [] ≡ none)
          × (find {V = Site Bytes} (bytes "blog.staging") [] ≡ none))
reset_sites_checked_example =
    reset_sites_checked backend false (bytes "blog") (bytes "key") running
      (record running { sites = [] }) (ok tt) reset_blog

abbrev pub reloaded : State backend
reloaded = record running { site_mutexes = (bytes "blog", 0) ∷ []; world = 4 }

pub reload_blog : reload_site backend false (bytes "blog") running ≡ (ok tt, reloaded)
unfolding reload_site reset_sites erase_site load_again load_site get_site_mutex new_site read_keys
    find assign erase Bytes-discrete ℕ_discrete
reload_blog = refl

reload_site_same_example :
    ((staging : Bool)
      → Reloaded backend false (bytes "blog") staging (bytes "blog-feed.xml") running reloaded)
    × ((k : Bytes)
        → k ≢ bytes "blog"
        → k ≢ bytes "blog.staging"
        → find k reloaded.sites ≡ find k running.sites)
    × (reloaded.sessions ≡ running.sessions)
reload_site_same_example =
    reload_site_same backend false (bytes "blog") running reloaded reload_blog
