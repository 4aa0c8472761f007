-- ===== src/Response/Window/Laws.antt =====
-- The window of a page in numbers: what it skips and how many rows it takes.
use vae_thrift.Prelude.{
  ℕ, ◌+◌, ◌-◌, ◌*◌, true, false, Option, ◌≡◌, ◌≤◌, ◌<◌, refl, arith, Bool-cases, ◌⊎◌, inl, inr,
}
use vae_thrift.Prelude.Int.{ℤ, pos, ◌+ℤ◌, ◌-ℤ◌, ◌*ℤ◌}
use vae_thrift.Exec.{ok}
use vae_thrift.Response.Window.{
  SortType, is_unsorted, Range, max_int, int32, at_least_one, page_number, plain_page, raw_window,
  range, some_rows, not_negative, window,
}

pub int32-pos : (n : ℕ) → n ≤ max_int → int32 (pos n) ≡ ok (pos n)
int32-pos n h = ground arith

pub pos-+ℤ : (a b : ℕ) → pos a +ℤ pos b ≡ pos (a + b)
unfolding ◌+ℤ◌
pos-+ℤ a b = ground arith

pub pos--ℤ : (a b : ℕ) → b ≤ a → pos a -ℤ pos b ≡ pos (a - b)
unfolding ◌-ℤ◌
pos--ℤ a b h = ground arith

pub pos-*ℤ : (a b : ℕ) → pos a *ℤ pos b ≡ pos (a * b)
unfolding ◌*ℤ◌
pos-*ℤ a b = ground arith

pub range_cases :
    (sort_type : SortType) (size skip paginate : ℕ)
    → paginate + skip ≤ max_int
    → (r : Range) × (range sort_type size skip paginate ≡ ok r)
      × (r.skip ≡ skip)
      × (r.paginate ≡ paginate)
      × (((is_unsorted sort_type ≡ true)
            × (r.start ≡ skip)
            × (r.end ≤ size)
            × (r.end ≤ paginate + skip)
            × ((r.end ≡ size) ⊎ (r.end ≡ paginate + skip)))
          ⊎ ((is_unsorted sort_type ≡ false) × (r.start ≡ 0) × (r.end ≡ size)))
unfolding range
range_cases sort_type size skip paginate h = elim (Bool-cases (is_unsorted sort_type)) [
  | inl e ↦
      rw (range, e, int32-pos (paginate + skip) h)
        (_, refl, refl, refl, inl (refl, refl, ground arith, ground arith, ground arith))
  | inr e ↦ rw (range, e) (_, refl, refl, refl, inr (refl, refl, ground arith))
]

pub not_negative-pos : (n : ℕ) → not_negative (pos n) ≡ n
not_negative-pos n = ground arith

pub some_rows-pos :
    (n : ℕ) → ((0 < n) × (some_rows (pos n) ≡ n)) ⊎ ((n ≡ 0) × (some_rows (pos n) ≡ 1))
some_rows-pos n = ground arith

module _ (ceil_quotient : ℤ → ℤ → Option ℤ) where
  -- A page of a query without groups skips the pages before it.
  pub window_plain :
      (skip page paginate size : ℕ) (sort_type : SortType)
      → 0 < page
      → 0 < paginate
      → skip + (page - 1) * paginate ≤ max_int
      → page ≤ max_int
      → window ceil_quotient
          (record {
            groups = pos 0;
            skip = pos skip;
            page = pos page;
            paginate = pos paginate;
            sort_type = sort_type;
          })
          size
        ≡ range sort_type size (skip + (page - 1) * paginate) paginate
  unfolding window raw_window plain_page page_number
  window_plain skip page paginate size sort_type h k l m =
      let first : at_least_one (pos page) ≡ pos page = ground arith in
      rw
        (
          window,
          raw_window,
          plain_page,
          page_number,
          first,
          pos--ℤ page 1 h,
          int32-pos (page - 1) (omega arith),
          pos-*ℤ (page - 1) paginate,
          int32-pos ((page - 1) * paginate) (omega arith),
          pos-+ℤ skip ((page - 1) * paginate),
          int32-pos (skip + (page - 1) * paginate) l,
        )
        (ground arith)
