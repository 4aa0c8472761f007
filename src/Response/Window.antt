-- ===== src/Response/Window.antt =====
-- Which rows of a query a page holds: the numbers at the head of `Response::query` in
-- cpp/response.cpp. An `int` that overflows is undefined. `ceil_quotient a b` is
-- `(int)ceil((float)a / b)` of the machine, `none` where no `int` is that number.
pub mod Laws
pub mod Groups
pub mod Examples
use vae_thrift.Prelude.{
  ℕ, zero, suc, ◌+◌, ◌-◌, ◌*◌, ◌^◌, ◌==◌, ltb, leb, if◌then◌else◌, Bool, true, false, not, ◌&&◌,
  ◌||◌, Option, none, some, ◌≡◌, ◌≤◌, ◌<◌,
}
use vae_thrift.Prelude.Int.{ℤ, pos, negsuc, pos_part, neg_part, sub_ℕ, ◌+ℤ◌, ◌-ℤ◌, ◌*ℤ◌, ltb_ℤ}
use vae_thrift.Exec.{Result, ok, undefined, and_then}

-- enum SortType
pub data SortType : Type 0 where
  unsorted reverse shuffle specific : SortType

abbrev pub is_unsorted : SortType → Bool
is_unsorted unsorted = true
is_unsorted reverse = false
is_unsorted shuffle = false
is_unsorted specific = false

-- What the options say of the page.
pub record Paging : Type 0 where
  pub groups : ℤ
  pub skip : ℤ
  pub page : ℤ
  pub paginate : ℤ
  pub sort_type : SortType

-- The variables `start`, `end`, `skip_` and `paginate_` after the tests.
pub record Range : Type 0 where
  pub start : ℕ
  pub end : ℕ
  pub skip : ℕ
  pub paginate : ℕ

abbrev pub max_int : ℕ
max_int = 2147483647

-- A sum, a difference or a product of the type `int`.
abbrev pub int32 : ℤ → Result ℤ
int32 z = if leb (pos_part z) max_int && leb (neg_part z) (suc max_int) then ok z else undefined

abbrev is_zero : ℤ → Bool
is_zero (pos n) = n == 0
is_zero (negsuc n) = false

abbrev is_minus_one : ℤ → Bool
is_minus_one (pos n) = false
is_minus_one (negsuc n) = n == 0

-- if (page_ <= 0) page_ = 1;
abbrev pub at_least_one : ℤ → ℤ
at_least_one z = if ltb_ℤ (pos 0) z then z else pos 1

-- if (paginate_ < 1) paginate_ = 1;
abbrev pub some_rows : ℤ → ℕ
some_rows z = if ltb_ℤ z (pos 1) then 1 else pos_part z

-- if (skip_ < 0) skip_ = 0;
abbrev pub not_negative : ℤ → ℕ
not_negative z = if ltb_ℤ z (pos 0) then 0 else pos_part z

-- if (end > size) end = size;
abbrev at_most : ℕ → ℕ → ℕ
at_most size end = if ltb size end then size else end

-- The tests on `end` and `start`.
unfoldable pub range : SortType → ℕ → ℕ → ℕ → Result Range
range sort_type size skip paginate =
    if is_unsorted sort_type
    then and_then (int32 (pos (paginate + skip))) (λ top. ok (record {
      start = skip;
      end = at_most size (if ltb (pos_part top) size then paginate + skip else size);
      skip = skip;
      paginate = paginate;
    }))
    else ok (record { start = 0; end = at_most size size; skip = skip; paginate = paginate })

module _ (ceil_quotient : ℤ → ℤ → Option ℤ) where
  abbrev pub ceil_int : ℤ → ℤ → Result ℤ
  ceil_int a b = elim (ceil_quotient a b) [ none ↦ undefined | some q ↦ ok q ]

  -- A round of the loop over the groups: `skip_` and `paginate_`.
  unfoldable pub group_round : ℤ → ℤ → ℕ → ℤ × ℤ → Result (ℤ × ℤ)
  group_round groups size j (skip, paginate) =
      and_then (if j == 0 then ok skip else int32 (skip +ℤ paginate)) λ skip'.
        and_then (int32 (size -ℤ skip')) λ left.
          and_then (int32 (groups -ℤ pos j))
            λ parts. and_then (ceil_int left parts) λ paginate'. ok (skip', paginate')

  -- The loop, `n` rounds from `j`.
  unfoldable pub group_pages : ℤ → ℤ → ℕ → ℕ → ℤ × ℤ → Result (ℤ × ℤ)
  group_pages groups size zero j w = ok w
  group_pages groups size (suc n) j w =
      and_then (group_round groups size j w) (group_pages groups size n (suc j))

  -- `page_`, where the page asked for may be the last one.
  unfoldable pub page_number : Paging → ℤ → Result ℤ
  page_number p size =
      and_then
        (if is_minus_one p.page
          then and_then (int32 (size -ℤ p.skip)) (λ left. ceil_int left p.paginate)
          else ok p.page)
        λ page. ok (at_least_one page)

  unfoldable pub plain_page : Paging → ℤ → Result (ℤ × ℤ)
  plain_page p size = and_then (page_number p size) λ page.
      and_then (int32 (page -ℤ pos 1)) λ before.
        and_then (int32 (before *ℤ p.paginate))
          λ passed. and_then (int32 (p.skip +ℤ passed)) λ skip. ok (skip, p.paginate)

  -- `skip_` and `paginate_`, before they are made positive.
  unfoldable pub raw_window : Paging → ℤ → Result (ℤ × ℤ)
  raw_window p size =
      if is_zero p.groups
      then plain_page p size
      else group_pages p.groups size (pos_part (at_least_one p.page)) 0 (p.skip, p.paginate)

  unfoldable pub window : Paging → ℕ → Result Range
  window p size =
      and_then (raw_window p (pos size))
        λ (w : ℤ × ℤ). range p.sort_type size (not_negative w.0) (some_rows w.1)
