-- ===== src/Handler/Threads.antt =====
-- The calls on sites by several threads at once, in cpp/vae_db_handler.cpp: `getSite`, `resetSite`
-- and `reloadSite`, cut where they take and give up their mutexes. What they do while they hold
-- `sitesMutex` is one step. The mutex of a site is held from the first line of `getSite` to its end,
-- and in `reloadSite` around a load. A mutex is named by the key of its site, since
-- `_get_site_mutex` gives one for each key.
pub mod Laws
pub mod Progress
pub mod Quiet
pub mod Stale
pub mod Overlap
mod Examples
use vae_thrift.Prelude.{
  ℕ, ◌≡◌, ◌==◌, if◌then◌else◌, ite, Bool, true, false, Option, none, some, List, [], ◌∷◌, ◌++◌,
}
use vae_thrift.Prelude.Bytes.{Bytes, bytes}
use vae_thrift.Prelude.Eq.{Bytes-discrete, bytes_eq}
use vae_thrift.Prelude.Map.{Map, find, assign, erase}
use vae_thrift.Exec.{Result, ok, raise, undefined, diverges, map_result}
use vae_thrift.Site.{Feeds, Site, new_site, validate_secret_key}
use vae_thrift.Handler.Sites.{sites_key}

-- The arguments of `getSite`.
pub record Request : Type 0 where
  pub subdomain : Bytes
  pub secret_key : Bytes
  pub staging : Bool

abbrev pub key_of : Request → Bytes
key_of d = sites_key d.subdomain d.staging

module _ (f : Feeds) where
  -- Where a thread stands. `getSite` waits for the mutex of its site, looks for the site, reads the
  -- feed, makes the site, puts it into `sites` and checks the key. `reloadSite` counts, reads, unloads
  -- and then, for each kind that was loaded, waits for the mutex, makes the site and puts it there.
  pub data Thread : Type 0 where
    idle : Thread
    entering looking reading : Request → Thread
    loading : Request → Bytes → Thread
    putting checking : Request → Site f.Doc → Thread
    answered : Result (Site f.Doc) → Thread
    resetting : Bytes → Bytes → Thread
    counting : Bytes → Thread
    fetching : Bytes → List Bool → Thread
    unloading restoring : Bytes → List Bool → Bytes → Thread
    remaking : Bytes → Bool → List Bool → Bytes → Thread
    reputting : Bytes → Bool → List Bool → Bytes → Site f.Doc → Thread
    ended : Thread

  -- The maps, the owner of each mutex, the threads by number, and the world outside.
  pub record Shared : Type 0 where
    pub sites : Map Bytes (Site f.Doc)
    pub held : Bytes → Option ℕ
    pub threads : ℕ → Thread
    pub world : f.World

  abbrev pub at_key : (Bytes → Option ℕ) → Bytes → Option ℕ → Bytes → Option ℕ
  at_key held k owner j = ite (Bytes-discrete k j) owner (held j)

  abbrev pub at_thread : (ℕ → Thread) → ℕ → Thread → ℕ → Thread
  at_thread threads t th u = if t == u then th else threads u

  abbrev pub move : ℕ → Thread → Shared → Shared
  move t th s = record s { threads = at_thread s.threads t th }

  -- A thread takes the mutex of a site, if it is free.
  unfoldable pub take : ℕ → Bytes → Thread → Shared → Option Shared
  take t k th s = elim (s.held k) [
    | none ↦ some (move t th (record s { held = at_key s.held k (some t) }))
    | some owner ↦ none
  ]

  -- It gives it up.
  abbrev pub give : ℕ → Bytes → Thread → Shared → Shared
  give t k th s = move t th (record s { held = at_key s.held k none })

  -- The end of `new Site`: the thread goes on with the site, or the exception ends the call. A
  -- constructor that does not come to its end, or whose behaviour is undefined, has no step: the thread
  -- stays where it stands, and keeps the mutex.
  unfoldable pub made_site :
      ℕ
      → Bytes
      → (Site f.Doc → Thread)
      → (Result (Site f.Doc) → Thread)
      → Result (Site f.Doc)
      → Shared
      → Option Shared
  made_site t k go_on failed (ok site) s = some (move t (go_on site) s)
  made_site t k go_on failed (raise e) s = some (give t k (failed (raise e)) s)
  made_site t k go_on failed undefined s = none
  made_site t k go_on failed diverges s = none

  abbrev pub and_kind : Bool → Option (Site f.Doc) → List Bool → List Bool
  and_kind staging none kinds = kinds
  and_kind staging (some site) kinds = staging ∷ kinds

  -- The kinds of a subdomain that are loaded.
  unfoldable pub kinds : Bytes → Map Bytes (Site f.Doc) → List Bool
  kinds subdomain sites =
      and_kind false (find (sites_key subdomain false) sites)
        (and_kind true (find (sites_key subdomain true) sites) [])

  module _ (test_mode : Bool) where
    -- `sites[key]->validateSecretKey(secretKey)`, and the site.
    abbrev pub checked : Site f.Doc → Bytes → Result (Site f.Doc)
    checked site secret_key = map_result (λ _. site) (validate_secret_key test_mode site secret_key)

    -- `_eraseSite` under a key, or what `validateSecretKey` throws.
    unfoldable pub unload : Bytes → Bytes → Map Bytes (Site f.Doc) → Result (Map Bytes (Site f.Doc))
    unload k secret_key sites = elim (find k sites) [
      | none ↦ ok sites
      | some site ↦ map_result (λ _. erase k sites) (validate_secret_key test_mode site secret_key)
    ]

    -- `_resetSite` with a secret key: the staging site stays if the production site's key is wrong.
    unfoldable pub reset_both : Bytes → Bytes → Map Bytes (Site f.Doc) → Map Bytes (Site f.Doc)
    reset_both subdomain secret_key sites =
        elim (unload (sites_key subdomain false) secret_key sites) [
          | ok sites' ↦ elim (unload (sites_key subdomain true) secret_key sites') [
            | ok sites'' ↦ sites''
            | raise e ↦ sites'
            | undefined ↦ sites'
            | diverges ↦ sites'
          ]
          | raise e ↦ sites
          | undefined ↦ sites
          | diverges ↦ sites
        ]

    -- The next step of thread `t`, which stands at `th`: none where it waits or has nothing to do.
    unfoldable pub advance : ℕ → Thread → Shared → Option Shared
    advance t idle s = none
    advance t (entering d) s = take t (key_of d) (looking d) s
    advance t (looking d) s = some (elim (find (key_of d) s.sites) [
      | some site ↦ give t (key_of d) (answered (checked site d.secret_key)) s
      | none ↦ move t (if test_mode then loading d [] else reading d) s
    ])
    advance t (reading d) s =
        let (xml, w) = f.read_s3 (d.subdomain ++ bytes "-feed.xml") s.world in
        some (move t (loading d xml) (record s { world = w }))
    advance t (loading d xml) s =
        let (made, w) = new_site test_mode f d.subdomain d.staging xml s.world in
        made_site t (key_of d) (putting d) answered made (record s { world = w })
    advance t (putting d site) s =
        some (move t (checking d site) (record s { sites = assign (key_of d) site s.sites }))
    advance t (checking d site) s =
        some (give t (key_of d) (answered (checked site d.secret_key)) s)
    advance t (answered r) s = none
    advance t (resetting subdomain secret_key) s =
        some (move t ended (record s { sites = reset_both subdomain secret_key s.sites }))
    advance t (counting subdomain) s =
        some (move t (fetching subdomain (kinds subdomain s.sites)) s)
    advance t (fetching subdomain todo) s =
        let (xml, w) = f.read_s3 (subdomain ++ bytes "-feed.xml") s.world in
        some (move t (unloading subdomain todo xml) (record s { world = w }))
    advance t (unloading subdomain todo xml) s = some (
        move t (restoring subdomain todo xml) (record s {
          sites = erase (sites_key subdomain true) (erase (sites_key subdomain false) s.sites);
        }))
    advance t (restoring subdomain [] xml) s = some (move t ended s)
    advance t (restoring subdomain (staging ∷ todo) xml) s =
        take t (sites_key subdomain staging) (remaking subdomain staging todo xml) s
    advance t (remaking subdomain staging todo xml) s =
        let (made, w) = new_site test_mode f subdomain staging xml s.world in
        made_site t (sites_key subdomain staging) (reputting subdomain staging todo xml)
          (λ r. ended) made (record s { world = w })
    advance t (reputting subdomain staging todo xml site) s = some (
        give t (sites_key subdomain staging) (restoring subdomain todo xml)
          (record s { sites = assign (sites_key subdomain staging) site s.sites }))
    advance t ended s = none

    -- What a client or the bus may call on a thread that is idle.
    pub data IsCall : Thread → Type 0 where
      get_site_call : (d : Request) → IsCall (entering d)
      reset_site_call : (subdomain secret_key : Bytes) → IsCall (resetting subdomain secret_key)
      reload_site_call : (subdomain : Bytes) → IsCall (counting subdomain)

    -- A thread goes on, a call comes in, or the world outside changes.
    pub data Step (s : Shared) : Shared → Type 0 where
      goes : (t : ℕ) (s' : Shared) → advance t (s.threads t) s ≡ some s' → Step s s'
      call : (t : ℕ) (th : Thread) → s.threads t ≡ idle → IsCall th → Step s (move t th s)
      outside : (w : f.World) → Step s (record s { world = w })

    pub data Reach (s : Shared) : Shared → Type 0 where
      here : Reach s s
      next : {t u : Shared} → Reach s t → Step t u → Reach s u
