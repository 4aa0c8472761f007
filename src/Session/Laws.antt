-- ===== src/Session/Laws.antt =====
-- Which response a number names, and that it keeps naming it.
use Prim.Native.Nat.{zero-le}
use vae_thrift.Prelude.{
  ℕ, zero, suc, ◌+◌, ◌-◌, ◌^◌, ◌≤◌, ◌<◌, ◌≡◌, refl, sym, ap, ◌∙◌, ◌⊎◌, inl, inr, Option, none, some,
  List, [], ◌∷◌, ◌++◌, length, get_elem?, arith, length-append, dec_lt,
}
use vae_thrift.Prelude.Int.{ℤ, pos, negsuc, pos_part, neg_part, ◌-ℤ◌}
use vae_thrift.Prelude.Bytes.{Bytes}
use vae_thrift.Prelude.Map.{Map}
use vae_thrift.Exec.{and_then-eq-ok, ok, undefined}
use vae_thrift.Session.{
  Responses, to_size_t, to_int32, at, Session, Answer, invalid_response_id, response_at, parent_of,
  get,
}

module _ {ℓ} {A : Type ℓ} where
  get_elem?_below : (xs : List A) (i : ℕ) → i < length xs → (a : A) × (get_elem? xs i ≡ some a)
  get_elem?_below [] i h = absurd (omega arith)
  get_elem?_below (x ∷ xs) zero h = (x, refl)
  get_elem?_below (x ∷ xs) (suc i) h = get_elem?_below xs i (omega arith)

  get_elem?_above : (xs : List A) (i : ℕ) → length xs ≤ i → get_elem? xs i ≡ none
  get_elem?_above [] i h = refl
  get_elem?_above (x ∷ xs) zero h = absurd (omega arith)
  get_elem?_above (x ∷ xs) (suc i) h = get_elem?_above xs i (omega arith)

  pub get_elem?-append_left :
      (xs ys : List A) (i : ℕ) → i < length xs → get_elem? (xs ++ ys) i ≡ get_elem? xs i
  get_elem?-append_left [] ys i h = absurd (omega arith)
  get_elem?-append_left (x ∷ xs) ys zero h = refl
  get_elem?-append_left (x ∷ xs) ys (suc i) h = get_elem?-append_left xs ys i (omega arith)

  pub get_elem?-append_last :
      (xs : List A) (y : A) → get_elem? (xs ++ (y ∷ [])) (length xs) ≡ some y
  get_elem?-append_last [] y = refl
  get_elem?-append_last (x ∷ xs) y = get_elem?-append_last xs y

  at_below : (xs : List A) (i : ℕ) {a : A} → get_elem? xs i ≡ some a → at xs i ≡ ok a
  unfolding at
  at_below xs i h = rw (h, at)

  at_above : (xs : List A) (i : ℕ) → length xs ≤ i → at xs i ≡ undefined
  unfolding at
  at_above xs i h = rw (get_elem?_above xs i h, at)

pred_index : (i : ℕ) → to_size_t (pos (suc i) -ℤ pos 1) ≡ i
unfolding to_size_t ◌-ℤ◌
pred_index i = ground arith

module _ {Site : Type 0} (r : Responses Site) where
  response_at-suc :
      (s : Session r) (i : ℕ)
      → i < length s.responses
      → response_at r s (pos (suc i)) ≡ at s.responses i
  unfolding response_at to_size_t
  response_at-suc s i h = ground (arith, ap (at s.responses) (pred_index i))

  pub response_at_named :
      (s : Session r) (i : ℕ)
      → i < length s.responses
      → (a : r.Response) × (get_elem? s.responses i ≡ some a)
        × (response_at r s (pos (suc i)) ≡ ok a)
  response_at_named s i h =
      let (a, e) = get_elem?_below s.responses i h in
      (a, e, response_at-suc s i h ∙ at_below s.responses i e)

  response_at_refused :
      (s : Session r) (id : ℤ)
      → length s.responses < 2 ^ 31
      → neg_part id ≤ 2 ^ 31
      → (length s.responses < pos_part id) ⊎ (0 < neg_part id)
      → response_at r s id ≡ invalid_response_id r
  unfolding response_at to_size_t
  response_at_refused s (pos n) fits low h = ground arith
  response_at_refused s (negsuc n) fits low h = ground arith

  response_at_zero :
      (s : Session r) → length s.responses < 2 ^ 31 → response_at r s (pos 0) ≡ undefined
  unfolding response_at to_size_t ◌-ℤ◌
  response_at_zero s fits =
      ground
        (arith, at_above s.responses (2 ^ 64 - 1) (omega arith), zero-le {n = length s.responses})

  -- What a number names, in a session of less than 2^31 responses: 1 up to their number name them
  -- in order. A number above that or below 0 is refused with the exception. But 0 passes the test,
  -- and the code then reads in front of the vector.
  pub response_at_cases :
      (s : Session r) (id : ℤ)
      → length s.responses < 2 ^ 31
      → neg_part id ≤ 2 ^ 31
      → ((i : ℕ) × (a : r.Response) × (id ≡ pos (suc i))
          × (get_elem? s.responses i ≡ some a)
          × (response_at r s id ≡ ok a))
        ⊎ ((id ≡ pos 0) × (response_at r s id ≡ undefined))
        ⊎ (((length s.responses < pos_part id) ⊎ (0 < neg_part id))
            × (response_at r s id ≡ invalid_response_id r))
  response_at_cases s (pos zero) fits low = inr (inl (refl, response_at_zero s fits))
  response_at_cases s (pos (suc i)) fits low = elim (dec_lt i (length s.responses)) [
    | yes h ↦ let (a, e, f) = response_at_named s i h in inl (i, a, refl, e, f)
    | no h ↦
        inr (
          inr (inl (omega arith), response_at_refused s (pos (suc i)) fits low (inl (omega arith))))
  ]
  response_at_cases s (negsuc n) fits low =
      inr (inr (inr (omega arith), response_at_refused s (negsuc n) fits low (inr (omega arith))))

  pub get_inv :
      (s : Session r) (id : ℤ) (q : Bytes) (o : Map Bytes Bytes) {a : Answer r} {s' : Session r}
      → get r s id q o ≡ ok (a, s')
      → (parent : Option r.Response) × (response : r.Response) × (parent_of r s id ≡ ok parent)
        × (r.new_response s.site parent q o ≡ ok response)
        × (a ≡ record {
          id = to_int32 (length s.responses + 1);
          contexts = r.write_contexts response;
        })
        × (s' ≡ record s { responses = s.responses ++ (response ∷ []) })
  unfolding get
  get_inv s id q o h =
      let (parent, e, h') = and_then-eq-ok (parent_of r s id) _ h in
      let (response, f, g) = and_then-eq-ok (r.new_response s.site parent q o) _ h' in
      (parent, response, e, f, ground arith, ground arith)

  pub to_int32_small : (n : ℕ) → n < 2 ^ 31 → to_int32 n ≡ pos n
  unfolding to_int32
  to_int32_small n h = ground arith

  abbrev pub grown : Session r → r.Response → Session r
  grown s response = record s { responses = s.responses ++ (response ∷ []) }

  pub response_at-grown_last :
      (s : Session r) (response : r.Response)
      → response_at r (grown s response) (pos (suc (length s.responses))) ≡ ok response
  response_at-grown_last s response =
      response_at-suc (grown s response) (length s.responses)
        (omega (arith, length-append s.responses (response ∷ [])))
      ∙ at_below (s.responses ++ (response ∷ [])) (length s.responses)
          (get_elem?-append_last s.responses response)

  response_at-grown_old :
      (s : Session r) (response : r.Response) (i : ℕ)
      → i < length s.responses
      → response_at r (grown s response) (pos (suc i)) ≡ response_at r s (pos (suc i))
  response_at-grown_old s response i h =
      let (a, e, f) = response_at_named s i h in
      response_at-suc (grown s response) i
        (omega (arith, length-append s.responses (response ∷ [])))
      ∙ at_below (s.responses ++ (response ∷ [])) i
          (get_elem?-append_left s.responses (response ∷ []) i h ∙ e)
      ∙ sym f

  -- In a session with less than 2^31 - 1 responses, a query that returns has answered with the
  -- contexts of a new response, under a number that names this response from then on, also as the
  -- parent of later queries; every number that named a response before still names the same one.
  pub response_at-get :
      (s : Session r) (id : ℤ) (q : Bytes) (o : Map Bytes Bytes) (a : Answer r) (s' : Session r)
      → length s.responses + 1 < 2 ^ 31
      → get r s id q o ≡ ok (a, s')
      → (parent : Option r.Response) × (response : r.Response) × (parent_of r s id ≡ ok parent)
        × (r.new_response s.site parent q o ≡ ok response)
        × (a.contexts ≡ r.write_contexts response)
        × (response_at r s' a.id ≡ ok response)
        × ((i : ℕ)
            → i < length s.responses
            → response_at r s' (pos (suc i)) ≡ response_at r s (pos (suc i)))
  response_at-get s id q o a s' fits h =
      let (parent, response, e, f, ea, es) = get_inv s id q o h in
      let small : to_int32 (length s.responses + 1) ≡ pos (suc (length s.responses)) =
        to_int32_small (length s.responses + 1) fits ∙ ap pos (omega arith) in
      (
        parent,
        response,
        e,
        f,
        ap (λ (x : Answer r). x.contexts) ea,
        rw (es, ap (λ (x : Answer r). x.id) ea, small) (response_at-grown_last s response),
        λ i below. rw es (response_at-grown_old s response i below),
      )
