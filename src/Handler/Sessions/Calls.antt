-- ===== src/Handler/Sessions/Calls.antt =====
-- What a logged call does to the sessions, seen from its client.
use vae_thrift.Prelude.{
  ℕ, ◌≡◌, ◌≢◌, sym, ap, ◌∙◌, ◌⊎◌, inl, inr, Bool, Option, none, some, List, arith,
}
use vae_thrift.Prelude.Int.{ℤ}
use vae_thrift.Prelude.Bytes.{Bytes}
use vae_thrift.Prelude.Eq.{int_eq, bytes_eq}
use vae_thrift.Prelude.Map.{Map, find, assign, find-assign_self, find-assign_ne}
use vae_thrift.Exec.{Result, ok, diverges, Exec, lift, pure, modify, ◌>>=◌, ◌>>◌}
use vae_thrift.Site.{Site, validate_secret_key}
use vae_thrift.Session.{Session, new_session, get, create_info, data_of, structure}
use vae_thrift.QueryLog.Entry.{Value}
use vae_thrift.Handler.State.{Backend, State, logged}
use vae_thrift.Handler.State.Laws.{SameButLog, logged_cases}
use vae_thrift.Handler.Sites.{sites_key}
use vae_thrift.Handler.Sessions.{
  Opened, open_body, open_session, in_session, create_info_call, data_call, structure_call,
  get_body, get_call,
}
use vae_thrift.Handler.Sessions.Laws.{open_body-ok}

module _ (b : Backend) where
  SameButLog-trans : (s t u : State b) → SameButLog b s t → SameButLog b t u → SameButLog b s u
  SameButLog-trans s t u (p, q, r, w) (p', q', r', w') = (p ∙ p', q ∙ q', r ∙ r', w ∙ w')

  -- A logged call that returns has run its body, between two states that differ from its own ends
  -- in the log only.
  logged-ok {ℓ} :
      {A : Type ℓ} (fuel : ℕ) (name : Bytes) (args : List Value) (body : Exec (State b) A)
      (s s' : State b) (a : A)
      → logged b fuel name args body s ≡ (ok a, s')
      → (s₀ : State b) × (t : State b) × SameButLog b s₀ s
        × SameButLog b s' t
        × (body s₀ ≡ (ok a, t))
  logged-ok fuel name args body s s' a h = elim (logged_cases b fuel name args body s) [
    | inl (hangs, same) ↦ cc
    | inr (s₀, same, r, after) ↦ (
      s₀,
      (body s₀).1,
      same,
      rw (ap (λ x. x.1) (sym h)) after,
      ap (λ x. (x, (body s₀).1)) (sym r ∙ ap (λ x. x.0) h),
    )
  ]

module _ (b : Backend) (test_mode : Bool) where
  -- `openSession`, when it returns: the secret key is one of the site's (or in test mode), the site
  -- is loaded, and its generation is in the answer. The session is a new one, under a number that
  -- was free, the suggested one if it was free; every other session is as it was.
  pub open_session_safe :
      (fuel : ℕ) (subdomain secret_key : Bytes) (staging : Bool) (suggested : ℤ) (s s' : State b)
      (opened : Opened b test_mode)
      → open_session b test_mode fuel subdomain secret_key staging suggested s ≡ (ok opened, s')
      → (site : Site b.feeds.Doc) × (now : ℕ) × (validate_secret_key test_mode site secret_key
          ≡ ok tt)
        × (find (sites_key subdomain staging) s'.sites ≡ some site)
        × (opened.generation ≡ site.generation)
        × (find opened.session_id s.sessions ≡ none)
        × (find suggested s.sessions ≡ none → opened.session_id ≡ suggested)
        × (find opened.session_id s'.sessions ≡ some (new_session b.responses site now))
        × ((k : ℤ) → k ≢ opened.session_id → find k s'.sessions ≡ find k s.sessions)
  unfolding open_session
  open_session_safe fuel subdomain secret_key staging suggested s s' opened h =
      let (s₀, t, (before, _, _, _), (after, sites, _, _), ran) =
        logged-ok b fuel _ _ (open_body b test_mode fuel subdomain secret_key staging suggested) s
          s' opened h in
      let (site, now, free, kept, checked, loaded, generation, put) =
        open_body-ok b test_mode fuel subdomain secret_key staging suggested s₀ t opened ran in
      (
        site,
        now,
        checked,
        ap (find (sites_key subdomain staging)) sites ∙ loaded,
        generation,
        rw (sym before) free,
        rw (sym before) kept,
        ap (find opened.session_id) (after ∙ put)
            ∙ find-assign_self opened.session_id (new_session b.responses site now) s₀.sessions,
        λ k ne.
            ap (find k) (after ∙ put)
            ∙ find-assign_ne opened.session_id k (new_session b.responses site now) s₀.sessions
                (λ q. ne (sym q))
            ∙ ap (find k) before,
      )

  -- A call that leaves its answer empty, or hangs while it logs its arguments, with no effect but
  -- on the log.
  abbrev pub NoAnswer : {A : Type 0} → Result (Option A) × State b → State b → Type 0
  NoAnswer (r, s') s = ((r ≡ ok none) ⊎ (r ≡ diverges)) × SameButLog b s' s

  in_session_absent :
      {A : Type 0} (id : ℤ) (body : Session b.responses → Exec (State b) A) (s : State b)
      → find id s.sessions ≡ none
      → in_session b test_mode id body s ≡ (ok none, s)
  in_session_absent id body s absent = ground arith

  in_session-NoAnswer :
      {A : Type 0} (fuel : ℕ) (name : Bytes) (args : List Value) (id : ℤ)
      (body : Session b.responses → Exec (State b) A) (s : State b)
      → find id s.sessions ≡ none
      → NoAnswer (logged b fuel name args (in_session b test_mode id body) s) s
  in_session-NoAnswer fuel name args id body s absent =
      elim (logged_cases b fuel name args (in_session b test_mode id body) s) [
        | inl (hangs, same) ↦ (inr hangs, same)
        | inr (s₀, same, r, after) ↦
            let e = in_session_absent id body s₀ (ap (find id) same.0 ∙ absent) in
            (
              inl (r ∙ ap (λ x. x.0) e),
              SameButLog-trans b (logged b fuel name args (in_session b test_mode id body) s).1 s₀ s
                  (rw (ap (λ x. x.1) (sym e)) after) same,
            )
      ]

  -- A number that names no session: the calls that take one leave their answer empty, with no
  -- effect but on the log.
  pub unknown_session :
      (fuel : ℕ) (id response_id : ℤ) (query : Bytes) (options : Map Bytes Bytes) (s : State b)
      → find id s.sessions ≡ none
      → NoAnswer (create_info_call b test_mode fuel id response_id query s) s
        × NoAnswer (data_call b test_mode fuel id response_id s) s
        × NoAnswer (structure_call b test_mode fuel id response_id s) s
        × NoAnswer (get_call b test_mode fuel id response_id query options s) s
  unfolding create_info_call data_call structure_call get_call get_body
  unknown_session fuel id response_id query options s absent = (
    in_session-NoAnswer fuel _ _ id
        (λ session. lift (create_info b.responses session response_id query)) s absent,
    in_session-NoAnswer fuel _ _ id (λ session. lift (data_of b.responses session response_id)) s
        absent,
    in_session-NoAnswer fuel _ _ id (λ session. lift (structure b.responses session response_id)) s
        absent,
    in_session-NoAnswer fuel _ _ id
        (λ session. do
          got ← lift (get b.responses session response_id query options)
          modify λ s. record s { sessions = assign id got.1 s.sessions }
          pure got.0)
        s absent,
  )
