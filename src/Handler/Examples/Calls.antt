-- ===== src/Handler/Examples/Calls.antt =====
-- The calls of a client on the server, and a round of the reaper.
use vae_thrift.Prelude.{ℕ, ◌≡◌, ◌≢◌, refl, false, none, some, [], ◌∷◌, ℕ_discrete}
use vae_thrift.Prelude.Int.{ℤ, pos}
use vae_thrift.Prelude.Bytes.{Bytes, bytes}
use vae_thrift.Prelude.Eq.{ℤ-discrete, Bytes-discrete, int_eq, bytes_eq}
use vae_thrift.Prelude.Map.{find, assign}
use vae_thrift.Exec.{ok}
use vae_thrift.Site.{Site, key_found, validate_secret_key}
use vae_thrift.Session.{new_session}
use vae_thrift.Session.Examples.{echo}
use vae_thrift.QueryLog.Entry.{new_entry, method_call, log_value, log_values, end_entry, flush}
use vae_thrift.Handler.State.{State, close, logged}
use vae_thrift.Handler.Sites.{get_site, get_site_mutex, loaded_site}
use vae_thrift.Handler.Sessions.{unused_id, record_session, open_body, open_session}
use vae_thrift.Handler.Sessions.Laws.{tried}
use vae_thrift.Handler.Sessions.Calls.{open_session_safe}
use vae_thrift.Handler.Sessions.Reaper.{IsKeyed}
use vae_thrift.Handler.Caches.{short_term_key, long_term_key}
use vae_thrift.Handler.Caches.Laws.{keys_collide}
use vae_thrift.Handler.Examples.{backend, blog, blog_session, running}

second_free : find (tried backend false 1 (pos 4) 2) running.sessions ≡ none
unfolding tried find ℤ-discrete ℕ_discrete
second_free = refl

abbrev opened : State backend
opened = record running {
  sessions = (pos 4, blog_session) ∷ (pos 2, new_session echo blog 3) ∷ [];
  site_mutexes = (bytes "blog", 0) ∷ [];
  log = record { out = none; query_id = 1 };
  entry = record {
    query_id = 0;
    start_time = 0;
    sslog = [];
    subdomain = bytes "blog";
    method_name = [];
  };
  world = 3;
}

open_second :
    open_session backend false 3 (bytes "blog") (bytes "key") false (pos 4) running
    ≡ (ok (record { session_id = pos 2; generation = pos 1 }), opened)
unfolding open_session logged close new_entry method_call log_values log_value end_entry flush
    open_body get_site get_site_mutex loaded_site unused_id record_session validate_secret_key
    key_found find assign new_session ℤ-discrete Bytes-discrete ℕ_discrete
open_second = refl

open_session_safe_example :
    (site : Site Bytes) × (now : ℕ) × (validate_secret_key false site (bytes "key") ≡ ok tt)
    × (find (bytes "blog") opened.sites ≡ some site)
    × (pos 1 ≡ site.generation)
    × (find (pos 2) running.sessions ≡ none)
    × (find (pos 4) running.sessions ≡ none → pos 2 ≡ pos 4)
    × (find (pos 2) opened.sessions ≡ some (new_session echo site now))
    × ((k : ℤ) → k ≢ pos 2 → find k opened.sessions ≡ find k running.sessions)
open_session_safe_example =
    open_session_safe backend false 3 (bytes "blog") (bytes "key") false (pos 4) running opened
      (record { session_id = pos 2; generation = pos 1 }) open_second

nine_unknown : find (pos 9) running.sessions ≡ none
unfolding find ℤ-discrete ℕ_discrete
nine_unknown = refl

four-IsKeyed : IsKeyed running.sessions
unfolding IsKeyed find
four-IsKeyed = (refl, tt)

keys_collide_example :
    short_term_key (bytes "blogLongTerm2") (bytes "a") ≡ long_term_key (bytes "blog") (bytes "a")
keys_collide_example = keys_collide (bytes "blog") (bytes "a")
