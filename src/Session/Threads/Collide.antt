-- ===== src/Session/Threads/Collide.antt =====
-- `get` of one thread alone, and of two at once.
use vae_thrift.Prelude.{
  ℕ, ◌+◌, ◌≡◌, ◌≢◌, refl, ap, ◌∙◌, inl, inr, some, [], ◌∷◌, ◌++◌, length, get_elem?, length-append,
  suc, ◌<◌, ◌^◌, arith,
}
use vae_thrift.Prelude.Int.{ℤ, pos}
use vae_thrift.Prelude.Bytes.{Bytes}
use vae_thrift.Prelude.Map.{Map}
use vae_thrift.Exec.{Result, ok, raise, undefined, diverges, map_result, Result-cases}
use vae_thrift.Session.{Responses, Session, Answer, to_int32, response_at, parent_of, get}
use vae_thrift.Session.Laws.{response_at_named, get_elem?-append_left, get_elem?-append_last}
use vae_thrift.Session.Threads.{
  Thread, getting, making, numbering, pushing, answered, Shared, move, goes_on, numbered, advance,
  goes, Reach, here, next,
}

module _ {Site : Type 0} (r : Responses Site) where
  -- The session after a call of `get` as a whole.
  abbrev pub session_after : Result (Answer r × Session r) → Session r → Session r
  session_after (ok (answer, session)) old = session
  session_after (raise e) old = old
  session_after undefined old = old
  session_after diverges old = old

  after :
      (s s' u : Shared r) (t : ℕ) (th : Thread r)
      → Reach r s s'
      → s'.threads t ≡ th
      → advance r t th s' ≡ some u
      → Reach r s u
  after s s' u t th reach at h = next reach (goes t u (rw at h))

  stands_at : (s : Shared r) (t : ℕ) (th : Thread r) → (move r t th s).threads t ≡ th
  stands_at s t th = ground arith

  stands_still :
      (s : Shared r) (t u : ℕ) (th : Thread r) → t ≢ u → (move r t th s).threads u ≡ s.threads u
  stands_still s t u th h = ground arith

  -- The two accesses that number and keep a response.
  abbrev numbers : ℕ → r.Response → Shared r → Shared r
  numbers t response s = move r t (pushing response (numbered r s.session response)) s

  abbrev pushes : ℕ → r.Response → Answer r → Shared r → Shared r
  pushes t response answer s = move r t (answered (ok answer)) (record s {
    session = record (s.session) { responses = s.session.responses ++ (response ∷ []) };
  })

  first_named :
      (session : Session r) (a b : r.Response)
      → length session.responses + 1 < 2 ^ 31
      → response_at r
          (record session { responses = session.responses ++ (a ∷ []) ++ (b ∷ []) })
          (to_int32 (length session.responses + 1))
        ≡ ok a
  unfolding to_int32
  first_named session a b small =
      let n = length session.responses in
      let all = session.responses ++ (a ∷ []) ++ (b ∷ []) in
      let l₁ = length-append session.responses (a ∷ []) in
      let l₂ = length-append (session.responses ++ (a ∷ [])) (b ∷ []) in
      let low : n < length (session.responses ++ (a ∷ [])) = omega (arith, l₁) in
      let (c, at, names) =
        response_at_named r (record session { responses = all }) n (omega (arith, l₁, l₂)) in
      let at_a : get_elem? all n ≡ some a =
        get_elem?-append_left (session.responses ++ (a ∷ [])) (b ∷ []) n low
        ∙ get_elem?-append_last session.responses a in
      let same : c ≡ a = cc in
      let number : to_int32 (n + 1) ≡ pos (suc n) = ground (arith, small) in
      ap (response_at r (record session { responses = all })) number ∙ names ∙ ap ok same

  -- Where two threads have each made a response for a session of fewer than 2^31 - 1 responses, they can be given the same number, and
  -- both responses are then in the session, so that the client of the second gets the first by its number:
  -- the session numbers a response and puts it into its vector without a mutex.
  pub get_collides :
      (s : Shared r) (t u : ℕ) (a b : r.Response)
      → t ≢ u
      → s.threads t ≡ numbering a
      → s.threads u ≡ numbering b
      → length s.session.responses + 1 < 2 ^ 31
      → (s' : Shared r) × (x y : Answer r) × Reach r s s'
        × (s'.threads t ≡ answered (ok x))
        × (s'.threads u ≡ answered (ok y))
        × (x.id ≡ y.id)
        × (s'.session.responses ≡ s.session.responses ++ (a ∷ []) ++ (b ∷ []))
        × (response_at r s'.session y.id ≡ ok a)
  unfolding advance
  get_collides s t u a b ne at_a at_b small =
      let x = numbered r s.session a in
      let y = numbered r s.session b in
      let s₁ = numbers t a s in
      let s₂ = numbers u b s₁ in
      let s₃ = pushes t a x s₂ in
      let s₄ = pushes u b y s₃ in
      let r₁ = after s s s₁ t (numbering a) here at_a refl in
      let r₂ = after s s₁ s₂ u (numbering b) r₁ (stands_still s t u (pushing a x) ne ∙ at_b) refl in
      let r₃ = after s s₂ s₃ t (pushing a x) r₂ (ground arith) refl in
      let r₄ = after s s₃ s₄ u (pushing b y) r₃ (ground arith) refl in
      (s₄, x, y, r₄, ground arith, ground arith, refl, refl, first_named s.session a b small)

  made_alone :
      (s₀ s : Shared r) (t : ℕ) (response : r.Response)
      → Reach r s₀ s
      → s.threads t ≡ numbering response
      → (s' : Shared r) × Reach r s₀ s'
        × (s'.threads t ≡ answered (ok (numbered r s.session response)))
        × (s'.session ≡ record (s.session) { responses = s.session.responses ++ (response ∷ []) })
  unfolding advance
  made_alone s₀ s t response reach at =
      let s₁ = numbers t response s in
      let s₂ = pushes t response (numbered r s.session response) s₁ in
      (
        s₂,
        after s₀ s₁ s₂ t (pushing response (numbered r s.session response))
            (after s₀ s s₁ t (numbering response) reach at refl) (stands_at s t _) refl,
        stands_at
            (record s₁ {
              session = record (s.session) { responses = s.session.responses ++ (response ∷ []) };
            })
            t _,
        refl,
      )

  failed_alone :
      (s₀ s : Shared r) (t : ℕ) (th : Thread r) (e : Result (Answer r))
      → Reach r s₀ s
      → s.threads t ≡ th
      → advance r t th s ≡ some (move r t (answered e) s)
      → (s' : Shared r) × Reach r s₀ s' × (s'.threads t ≡ answered e) × (s'.session ≡ s.session)
  failed_alone s₀ s t th e reach at h = (
    move r t (answered e) s,
    after s₀ s (move r t (answered e) s) t th reach at h,
    stands_at s t (answered e),
    refl,
  )

  -- A thread whose `get` no other thread disturbs does what `get` does as a whole: the same answer or
  -- exception, and the same session.
  pub get_alone :
      (s : Shared r) (t : ℕ) (response_id : ℤ) (query : Bytes) (options : Map Bytes Bytes)
      → s.threads t ≡ getting response_id query options
      → (s' : Shared r) × Reach r s s'
        × (s'.threads t
            ≡ answered (
                map_result
                  (λ (g : Answer r × Session r). g.0)
                  (get r s.session response_id query options)))
        × (s'.session ≡ session_after (get r s.session response_id query options) s.session)
  unfolding advance get goes_on
  get_alone s t response_id query options at =
      elim (Result-cases (parent_of r s.session response_id)) [
        | inl (parent, e) ↦
            let s₁ = move r t (making parent query options) s in
            let r₁ : Reach r s s₁ =
              after s s s₁ t (getting response_id query options) here at (rw e refl) in
            let at₁ = stands_at s t (making parent query options) in
            elim (Result-cases (r.new_response s.session.site parent query options)) [
              | inl (response, e') ↦
                  let s₂ = move r t (numbering response) s₁ in
                  let r₂ : Reach r s s₂ =
                    after s s₁ s₂ t (making parent query options) r₁ at₁ (rw e' refl) in
                  rw (e, e') (made_alone s s₂ t response r₂ (stands_at s₁ t (numbering response)))
              | inr (inl (x, e')) ↦ rw (e, e') (failed_alone s s₁ t _ (raise x) r₁ at₁ (rw e' refl))
              | inr (inr (inl e')) ↦
                  rw (e, e') (failed_alone s s₁ t _ undefined r₁ at₁ (rw e' refl))
              | inr (inr (inr e')) ↦ rw (e, e') (failed_alone s s₁ t _ diverges r₁ at₁ (rw e' refl))
            ]
        | inr (inl (x, e)) ↦ rw e (failed_alone s s t _ (raise x) here at (rw e refl))
        | inr (inr (inl e)) ↦ rw e (failed_alone s s t _ undefined here at (rw e refl))
        | inr (inr (inr e)) ↦ rw e (failed_alone s s t _ diverges here at (rw e refl))
      ]
