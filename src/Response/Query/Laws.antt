-- ===== src/Response/Query/Laws.antt =====
-- A page is a slice of the ordered rows, whichever loop picks them and wherever they are cut.
use vae_thrift.Prelude.{
  take_beyond, drop_beyond, ℕ, ◌+◌, ◌-◌, ◌*◌, ◌≤◌, ◌<◌, ◌≡◌, refl, sym, ap, ◌∙◌, ◌⊎◌, inl, inr, ltb,
  Bool, true, false, Option, List, length, take, drop, arith, Bool-cases, take-nil, length-drop,
}
use vae_thrift.Prelude.Int.{ℤ, pos}
use vae_thrift.Exec.{ok, and_then, and_then_congr, and_then_congr_ok, and_then_assoc, map_result}
use vae_thrift.Response.{Rows}
use vae_thrift.Response.Laws.{contexts_of}
use vae_thrift.Response.Window.{
  SortType, unsorted, reverse, shuffle, specific, is_unsorted, Range, max_int,
}
use vae_thrift.Response.Window.Laws.{window_plain, range_cases}
use vae_thrift.Response.Query.{
  Orders, ResponseContext, trim, order_contexts, order_and_trim, query_rows,
}
use vae_thrift.Response.Query.Picked.{IsComplete, selected, picked, choose_rows_lem, selected-some}

module _ {ℓ} {A : Type ℓ} where
  trim_lem : (skip n : ℕ) (xs : List A) → trim skip n xs ≡ take n (drop skip xs)
  unfolding trim
  trim_lem skip n xs = elim (Bool-cases (ltb skip (length xs))) [
    | inl e ↦ elim (Bool-cases (ltb n (length (drop skip xs)))) [
      | inl f ↦ rw (trim, e, f) refl
      | inr f ↦ rw (trim, e, f) (sym (take_beyond n (drop skip xs) (ground arith)))
    ]
    | inr e ↦ rw (trim, e, drop_beyond skip xs (ground arith), take-nil n) (ground arith)
  ]

module _ (r : Rows) (orders : Orders r.Context) (filter unique : Bool) where
  -- The contexts behind the first `before`, at most `paginate` of them.
  abbrev pub slice : ℕ → ℕ → ℕ → List r.Context → ResponseContext r.Context
  slice before paginate total cs = record {
    contexts = take paginate (drop before cs);
    total = total;
  }

  -- The numbers of a page: what `range_cases` says of them.
  abbrev IsRange : SortType → ℕ → ℕ → ℕ → Range → Type 0
  IsRange sort_type size before paginate w =
      (w.skip ≡ before)
      × (w.paginate ≡ paginate)
      × (((is_unsorted sort_type ≡ true)
            × (w.start ≡ before)
            × (w.end ≤ size)
            × (w.end ≤ paginate + before)
            × ((w.end ≡ size) ⊎ (w.end ≡ paginate + before)))
          ⊎ ((is_unsorted sort_type ≡ false) × (w.start ≡ 0) × (w.end ≡ size)))

  picked_eq :
      (size before paginate start end : ℕ) (cs : List r.Context)
      → length cs ≤ size
      → start ≡ before
      → (end ≡ size) × (end ≤ paginate + before) ⊎ (end ≡ paginate + before)
      → take (end - start) (drop start cs) ≡ take paginate (drop before cs)
  picked_eq size before paginate start end cs short starts (inl (all, few)) = rw starts (
      take_beyond (end - before) (drop before cs) (omega (arith, length-drop before cs))
      ∙ sym (take_beyond paginate (drop before cs) (omega (arith, length-drop before cs))))
  picked_eq size before paginate start end cs short starts (inr full) =
      let rows : end - start ≡ paginate = omega arith in rw (rows, starts) refl

  sorted_eq :
      (sort_type : SortType) (size before paginate : ℕ) (w : Range) (total : ℕ)
      (cs : List r.Context)
      → is_unsorted sort_type ≡ false
      → length cs ≤ size
      → IsRange sort_type size before paginate w
      → order_and_trim r orders filter unique sort_type w
          (record { contexts = take (w.end - w.start) (drop w.start cs); total = total })
        ≡ map_result
            (slice before paginate total)
            (order_contexts r orders filter unique sort_type cs)
  unfolding order_and_trim
  sorted_eq sort_type size before paginate w total cs sorted short
        (skips, takes, inl (plain, _, _, _, _)) =
      cc
  sorted_eq sort_type size before paginate w total cs sorted short
        (skips, takes, inr (_, starts, ends)) =
      let whole : take (w.end - w.start) (drop w.start cs) ≡ cs =
        rw starts (take_beyond (w.end - 0) cs (omega arith)) in
      rw (order_and_trim, whole, sorted, skips, takes)
        (and_then_congr (order_contexts r orders filter unique sort_type cs)
          (λ a. ap (λ x. ok (record { contexts = x; total = total })) (trim_lem before paginate a)))

  unsorted_eq :
      (size before paginate : ℕ) (w : Range) (total : ℕ) (cs : List r.Context)
      → length cs ≤ size
      → IsRange unsorted size before paginate w
      → order_and_trim r orders filter unique unsorted w
          (record { contexts = take (w.end - w.start) (drop w.start cs); total = total })
        ≡ ok (slice before paginate total cs)
  unfolding order_and_trim order_contexts
  unsorted_eq size before paginate w total cs short (skips, takes, inr (sorted, _, _)) = cc
  unsorted_eq size before paginate w total cs short
        (skips, takes, inl (_, starts, below, few, ends)) =
      ap (λ x. ok (record { contexts = x; total = total }))
        (picked_eq size before paginate w.start w.end cs short starts (ground arith))

  order_and_trim_lem :
      (sort_type : SortType) (size before paginate : ℕ) (w : Range) (total : ℕ)
      (cs : List r.Context)
      → length cs ≤ size
      → IsRange sort_type size before paginate w
      → order_and_trim r orders filter unique sort_type w
          (record { contexts = take (w.end - w.start) (drop w.start cs); total = total })
        ≡ map_result
            (slice before paginate total)
            (order_contexts r orders filter unique sort_type cs)
  unfolding order_contexts
  order_and_trim_lem unsorted size before paginate w total cs short h =
      unsorted_eq size before paginate w total cs short h
  order_and_trim_lem reverse size before paginate w total cs short h =
      sorted_eq reverse size before paginate w total cs refl short h
  order_and_trim_lem shuffle size before paginate w total cs short h =
      sorted_eq shuffle size before paginate w total cs refl short h
  order_and_trim_lem specific size before paginate w total cs short h =
      sorted_eq specific size before paginate w total cs refl short h

  -- On rows that have their contexts, a page of a query without groups, whose numbers fit into an
  -- `int`, is a slice: of the contexts of the selected rows, put in the order asked for, it leaves
  -- out those of the pages before it and what the options skip, and takes as many as a page has. The
  -- total is the number of the selected rows. Where a test on a row throws, as `getData` of a unique
  -- field does, the query throws the same. So it is for every order, with a filter or without,
  -- although the code cuts the unordered rows while it picks them and the ordered ones afterwards.
  pub query_rows_lem :
      (ceil_quotient : ℤ → ℤ → Option ℤ) (sort_type : SortType) (skip page paginate : ℕ)
      (nodes : List r.Node)
      → IsComplete r orders filter unique nodes
      → 0 < page
      → 0 < paginate
      → page ≤ max_int
      → paginate + (skip + (page - 1) * paginate) ≤ max_int
      → query_rows r orders filter unique ceil_quotient
          (record {
            groups = pos 0;
            skip = pos skip;
            page = pos page;
            paginate = pos paginate;
            sort_type = sort_type;
          })
          nodes
        ≡ and_then (selected r orders filter unique nodes) (λ (rows : List r.Node).
          map_result
            (slice (skip + (page - 1) * paginate) paginate (length rows))
            (order_contexts r orders filter unique sort_type (contexts_of r filter unique rows)))
  unfolding query_rows
  query_rows_lem ceil_quotient sort_type skip page paginate nodes complete h k l m =
      let before = skip + (page - 1) * paginate in
      let (w, e, skips, takes, shape) = range_cases sort_type (length nodes) before paginate m in
      rw
        (
          query_rows,
          window_plain ceil_quotient skip page paginate (length nodes) sort_type h k (omega arith)
              l,
          e,
          choose_rows_lem r orders filter unique nodes w complete (ground (arith, shape)),
        )
        (and_then_assoc (selected r orders filter unique nodes)
            (λ rows. ok (picked r orders filter unique w rows))
            (order_and_trim r orders filter unique sort_type w)
          ∙ and_then_congr_ok (selected r orders filter unique nodes) (λ rows found.
            order_and_trim_lem sort_type (length nodes) before paginate w (length rows)
              (contexts_of r filter unique rows)
              (selected-some r orders filter unique nodes rows found).0 (skips, takes, shape)))
