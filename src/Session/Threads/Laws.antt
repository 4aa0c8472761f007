-- ===== src/Session/Threads/Laws.antt =====
-- What stays true of a session whatever its threads do, and what one thread alone does.
use vae_thrift.Prelude.{
  ℕ, suc, ◌<◌, ◌≡◌, refl, sym, ap, subst, ◌∙◌, some, List, [], ◌∷◌, ◌++◌, length, length-append,
  arith,
}
use vae_thrift.Prelude.Int.{pos}
use mathlib.Core.List.{append_assoc, append-nil}
use vae_thrift.Exec.{ok}
use vae_thrift.Session.{Responses, Session, response_at}
use vae_thrift.Session.Laws.{response_at_named, get_elem?-append_left}
use vae_thrift.Session.Threads.{
  Thread, idle, getting, making, numbering, pushing, answered, reading, found, Shared, move,
  advance, goes, call, Reach, here, next,
}

module _ {Site : Type 0} (r : Responses Site) where
  -- The session with more responses behind.
  abbrev pub with_more : Session r → List r.Response → Session r
  with_more session more = record session { responses = session.responses ++ more }

  -- What a step appends.
  Appends : Session r → Session r → Type 0
  Appends a b = (more : List r.Response) × (b ≡ with_more a more)

  Appends-refl : (a : Session r) → Appends a a
  unfolding Appends
  Appends-refl a =
      ([], ap (λ (l : List r.Response). record a { responses = l }) (sym (append-nil a.responses)))

  Appends-trans : (a b c : Session r) → Appends a b → Appends b c → Appends a c
  unfolding Appends
  Appends-trans a b c (xs, e) (ys, e') = (
    xs ++ ys,
    e'
        ∙ ap (λ (s : Session r). with_more s ys) e
        ∙ ap (λ (l : List r.Response). record a { responses = l }) (append_assoc a.responses xs ys),
  )

  kept :
      (s x s' : Shared r) → some x ≡ some s' → x.session ≡ s.session → Appends s.session s'.session
  kept s x s' h e =
      let same : x ≡ s' = cc in
      subst (Appends s.session) (sym e ∙ ap Shared.session same) (Appends-refl s.session)

  advance-Appends :
      (t : ℕ) (th : Thread r) (s s' : Shared r)
      → advance r t th s ≡ some s'
      → Appends s.session s'.session
  unfolding advance Appends
  advance-Appends t idle s s' h = cc
  advance-Appends t (getting response_id query options) s s' h = kept s _ s' h refl
  advance-Appends t (making parent query options) s s' h = kept s _ s' h refl
  advance-Appends t (numbering response) s s' h = kept s _ s' h refl
  advance-Appends t (pushing response answer) s s' h =
      let pushed =
        move r t (answered (ok answer))
          (record s { session = with_more s.session (response ∷ []) }) in
      let same : pushed ≡ s' = cc in (response ∷ [], sym (ap Shared.session same))
  advance-Appends t (answered a) s s' h = cc
  advance-Appends t (reading response_id) s s' h = kept s _ s' h refl
  advance-Appends t (found a) s s' h = cc

  Reach-Appends : (s s' : Shared r) → Reach r s s' → Appends s.session s'.session
  Reach-Appends s _ here = Appends-refl s.session
  Reach-Appends s _ (next {t} {u} reach (goes n _ h)) =
      Appends-trans s.session t.session u.session (Reach-Appends s t reach)
        (advance-Appends n (t.threads n) t u h)
  Reach-Appends s _ (next {t} {u} reach (call n th free calls)) = Reach-Appends s t reach

  -- However the calls on a session interleave, its site and its time stay, and a number from 1 on that
  -- names a response names the same response ever after.
  pub Reach-response_at :
      (s s' : Shared r)
      → Reach r s s'
      → (s'.session.site ≡ s.session.site)
        × (s'.session.created_at ≡ s.session.created_at)
        × ((i : ℕ)
            → i < length s.session.responses
            → response_at r s'.session (pos (suc i)) ≡ response_at r s.session (pos (suc i)))
  unfolding Appends
  Reach-response_at s s' reach =
      let (more, e) = Reach-Appends s s' reach in
      (
        ap Session.site e,
        ap Session.created_at e,
        λ i h.
            let (a, at, names) = response_at_named r s.session i h in
            let h' : i < length (s.session.responses ++ more) =
              omega (arith, length-append s.session.responses more) in
            let (b, at', names') = response_at_named r (with_more s.session more) i h' in
            let same : some b ≡ some a =
              sym at' ∙ get_elem?-append_left s.session.responses more i h ∙ at in
            let b_a : b ≡ a = cc in
            ap (λ (x : Session r). response_at r x (pos (suc i))) e
            ∙ names'
            ∙ ap ok b_a
            ∙ sym names,
      )
