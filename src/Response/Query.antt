-- ===== src/Response/Query.antt =====
-- `Response::query` in cpp/response.cpp from the rows that were found to the contexts of a page. The
-- nodes and contexts are those of `Rows`; `random_shuffle` and `sort` of the C++ library, with
-- `sortCallback`, are the interface `Orders`, since their results are not determined by the source.
pub mod Picked
pub mod Laws
mod Examples
use vae_thrift.Prelude.{
  ℕ, zero, suc, ◌-◌, ltb, if◌then◌else◌, Bool, true, false, ◌||◌, Option, none, some, List, [], ◌∷◌,
  ◌++◌, length, take, drop, get_elem?,
}
use vae_thrift.Prelude.Int.{ℤ}
use vae_thrift.Exec.{Result, ok, undefined, and_then, map_result}
use vae_thrift.Response.{Rows, Page, pick_rows, first_page}
use vae_thrift.Response.Window.{
  SortType, unsorted, reverse, shuffle, specific, is_unsorted, Paging, Range, window,
}

pub record Orders (Context : Type 0) : Type 0 where
  pub random_shuffle : List Context → List Context
  pub sort : List Context → Result (List Context)

pub record ResponseContext (Context : Type 0) : Type 0 where
  pub contexts : List Context
  pub total : ℕ

-- std::reverse
unfoldable pub reverse_onto {ℓ} : {A : Type ℓ} → List A → List A → List A
reverse_onto [] back = back
reverse_onto (x ∷ xs) back = reverse_onto xs (x ∷ back)

-- The rows that were asked for, cut out of an ordered list of all.
unfoldable pub trim {ℓ} : {A : Type ℓ} → ℕ → ℕ → List A → List A
trim skip paginate contexts =
    let kept = if ltb skip (length contexts) then drop skip contexts else [] in
    if ltb paginate (length kept) then take paginate kept else kept

module _ (r : Rows) (orders : Orders r.Context) (filter unique : Bool) where
  open r use {Node, Context, context_of}

  -- The loop over the rows from `i`, `n` of them, behind the contexts `cs`.
  unfoldable pub plain_rows : List Node → ℕ → ℕ → List Context → Result (List Context)
  plain_rows nodes zero i cs = ok cs
  plain_rows nodes (suc n) i cs = elim (get_elem? nodes i) [
    | none ↦ undefined
    | some node ↦
        plain_rows nodes n (suc i)
          (elim (context_of node) [ none ↦ cs | some ctxt ↦ cs ++ (ctxt ∷ []) ])
  ]

  -- The two loops over the rows.
  unfoldable pub choose_rows : List Node → Range → Result (ResponseContext Context)
  choose_rows nodes w =
      if filter || unique
      then map_result
          (λ (page : Page Context). record { contexts = page.contexts; total = page.total })
          (pick_rows r filter unique w.start w.end nodes [] (first_page r filter unique))
      else map_result (λ cs. record { contexts = cs; total = length nodes })
          (plain_rows nodes (w.end - w.start) w.start [])

  unfoldable pub order_contexts : SortType → List Context → Result (List Context)
  order_contexts unsorted cs = ok cs
  order_contexts reverse cs = ok (reverse_onto cs [])
  order_contexts shuffle cs = ok (orders.random_shuffle cs)
  order_contexts specific cs = orders.sort cs

  -- The two tests on the order at the end.
  unfoldable pub order_and_trim :
      SortType → Range → ResponseContext Context → Result (ResponseContext Context)
  order_and_trim sort_type w found =
      map_result
        (λ (cs : List Context). record {
          contexts = if is_unsorted sort_type then cs else trim w.skip w.paginate cs;
          total = found.total;
        })
        (order_contexts sort_type found.contexts)

  -- `Response::query`, on the nodes of the query.
  unfoldable pub query_rows :
      (ℤ → ℤ → Option ℤ) → Paging → List Node → Result (ResponseContext Context)
  query_rows ceil_quotient p nodes =
      and_then (window ceil_quotient p (length nodes))
        λ w. and_then (choose_rows nodes w) (order_and_trim p.sort_type w)
