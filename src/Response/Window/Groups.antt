-- ===== src/Response/Window/Groups.antt =====
-- The pages of a query in groups.
use vae_thrift.Prelude.{
  ℕ, zero, suc, ◌+◌, ◌-◌, ◌*◌, ◌==◌, if◌then◌else◌, false, Option, some, ◌≡◌, ◌≤◌, ◌<◌, refl, ap,
  sym, ◌∙◌, arith, inl, inr,
}
use vae_thrift.Prelude.Int.{ℤ, pos, ◌+ℤ◌}
use vae_thrift.Exec.{ok, and_then, and_then_assoc, and_then_congr, and_then-ok}
use vae_thrift.Response.Window.{
  unsorted, Paging, Range, max_int, int32, at_least_one, ceil_int, group_round, group_pages,
  raw_window, range, some_rows, window,
}
use vae_thrift.Response.Window.Laws.{
  int32-pos, pos-+ℤ, pos--ℤ, range_cases, not_negative-pos, some_rows-pos,
}

-- Twenty-four bits, the digits of a `float`.
abbrev pub exact_bound : ℕ
exact_bound = 16777216

-- `q` is a / b, rounded up.
abbrev pub IsCeil : ℕ → ℕ → ℕ → Type 0
IsCeil a b q = (a ≤ q * b) × (q * b < a + b)

-- The arithmetic of `float` in the range where it rounds no quotient over an integer.
abbrev pub IsExact : (ℤ → ℤ → Option ℤ) → Type 0
IsExact ceil_quotient =
    (a b : ℕ)
    → a ≤ exact_bound
    → 0 < b
    → b ≤ max_int
    → (q : ℕ) × (ceil_quotient (pos a) (pos b) ≡ some (pos q)) × IsCeil a b q

-- The `skip_` of a round.
abbrev next_skip : ℕ → ℕ → ℕ → ℕ
next_skip zero skip paginate = skip
next_skip (suc j) skip paginate = skip + paginate

next_skip_lem :
    (j skip paginate : ℕ)
    → next_skip j skip paginate ≤ max_int
    → (if j == 0 then ok (pos skip) else int32 (pos skip +ℤ pos paginate))
      ≡ ok (pos (next_skip j skip paginate))
next_skip_lem zero skip paginate h = refl
next_skip_lem (suc j) skip paginate h =
    rw (pos-+ℤ skip paginate) (ground (arith, int32-pos (skip + paginate)))

-- A quotient that is rounded up does not go past the number, and dividing by one keeps it.
IsCeil-le : (a b q : ℕ) → 0 < b → IsCeil a b q → q ≤ a
IsCeil-le a zero q h (lo, hi) = absurd (omega arith)
IsCeil-le a (suc c) zero h (lo, hi) = omega arith
IsCeil-le a (suc c) (suc q) h (lo, hi) = omega arith

IsCeil-none : (a b q : ℕ) → q ≡ 0 → a ≤ q * b → a ≡ 0
IsCeil-none a b zero z h = omega arith
IsCeil-none a b (suc q) z h = absurd (omega arith)

IsCeil-last : (a b q : ℕ) → b ≡ 1 → IsCeil a b q → q ≡ a
IsCeil-last a b q e h = let (lo, hi) : IsCeil a 1 q = rw (sym e) h in omega arith

-- The numbers of page `page` of a query in groups.
abbrev pub grouped : ℕ → ℕ → ℕ → ℤ → Paging
grouped groups skip page paginate = record {
  groups = pos groups;
  skip = pos skip;
  page = pos page;
  paginate = paginate;
  sort_type = unsorted;
}

module _ (ceil_quotient : ℤ → ℤ → Option ℤ) where
  ceil_int-some :
      (left parts skip q : ℤ)
      → ceil_quotient left parts ≡ some q
      → and_then {B = ℤ × ℤ} (ceil_int ceil_quotient left parts) (λ paginate. ok (skip, paginate))
        ≡ ok (skip, q)
  ceil_int-some left parts skip q h = rw (ceil_int, h) refl

  -- One round, where the rows left are shared out among the groups left.
  group_round_lem :
      IsExact ceil_quotient
      → (groups size j skip paginate : ℕ) → j < groups
      → groups ≤ max_int
      → size ≤ exact_bound
      → next_skip j skip paginate ≤ size
      → let skip' = next_skip j skip paginate in
        (q : ℕ) × (group_round ceil_quotient (pos groups) (pos size) j (pos skip, pos paginate)
          ≡ ok (pos skip', pos q))
        × IsCeil (size - skip') (groups - j) q
  unfolding group_round
  group_round_lem exact groups size j skip paginate h k l m =
      let skip' = next_skip j skip paginate in
      let (q, quotient, bounds) =
        exact (size - skip') (groups - j) (omega arith) (omega arith) (omega arith) in
      (
        q,
        rw
            (
              group_round,
              next_skip_lem j skip paginate (omega arith),
              pos--ℤ size skip' m,
              int32-pos (size - skip') (omega arith),
              pos--ℤ groups j (omega arith),
              int32-pos (groups - j) (omega arith),
            )
            (ceil_int-some (pos (size - skip')) (pos (groups - j)) (pos skip') (pos q) quotient),
        bounds,
      )

  -- The loop with one round more is the loop, and then that round.
  group_pages-suc :
      (groups size : ℤ) (n j : ℕ) (w : ℤ × ℤ)
      → group_pages ceil_quotient groups size (suc n) j w
        ≡ and_then
            (group_pages ceil_quotient groups size n j w)
            (group_round ceil_quotient groups size (j + n))
  unfolding group_pages
  group_pages-suc groups size zero j w =
      and_then-ok (group_round ceil_quotient groups size j w)
      ∙ ap (λ i. group_round ceil_quotient groups size i w) (omega arith)
  group_pages-suc groups size (suc n) j w =
      and_then_congr (group_round ceil_quotient groups size j w) (λ x.
        group_pages-suc groups size n (suc j) x
        ∙ ap
            (λ i.
              and_then (group_pages ceil_quotient groups size n (suc j) x)
                (group_round ceil_quotient groups size i))
            (omega arith))
      ∙ sym (and_then_assoc (group_round ceil_quotient groups size j w) _ _)

  group_pages-last :
      (groups size : ℤ) (n : ℕ) (w : ℤ × ℤ)
      → group_pages ceil_quotient groups size (suc n) 0 w
        ≡ and_then
            (group_pages ceil_quotient groups size n 0 w)
            (group_round ceil_quotient groups size n)
  group_pages-last groups size n w =
      group_pages-suc groups size n 0 w
      ∙ ap
          (λ i.
            and_then (group_pages ceil_quotient groups size n 0 w)
              (group_round ceil_quotient groups size i))
          (omega arith)

  -- The loop after `n` rounds and one more, where there is a group for each.
  abbrev Shared : ℕ → ℕ → ℕ → ℕ → ℕ → ℕ → Type 0
  Shared groups size skip paginate n s =
      (q : ℕ) × (group_pages ceil_quotient (pos groups) (pos size) (suc n) 0
          (pos skip, pos paginate)
        ≡ ok (pos s, pos q))
      × IsCeil (size - s) (groups - n) q

  Shared-suc :
      IsExact ceil_quotient
      → (groups size skip paginate n s : ℕ) → suc n < groups
      → groups ≤ max_int
      → size ≤ exact_bound
      → s ≤ size
      → (shared : Shared groups size skip paginate n s)
      → (s + shared.0 ≤ size) × Shared groups size skip paginate (suc n) (s + shared.0)
  Shared-suc exact groups size skip paginate n s h k l m (q, e, bounds) =
      let few = IsCeil-le (size - s) (groups - n) q (omega arith) bounds in
      let below : s + q ≤ size = omega (arith, few) in
      let (q', e', bounds') = group_round_lem exact groups size (suc n) s q h k l below in
      (
        below,
        (
          q',
          group_pages-last (pos groups) (pos size) (suc n) (pos skip, pos paginate)
              ∙ ap (λ r. and_then r (group_round ceil_quotient (pos groups) (pos size) (suc n))) e
              ∙ e',
          bounds',
        ),
      )

  group_pages-Shared :
      IsExact ceil_quotient
      → (groups size skip paginate n : ℕ) → n < groups
      → groups ≤ max_int
      → size ≤ exact_bound
      → skip ≤ size
      → (s : ℕ) × (s ≤ size) × ((n ≡ 0) → s ≡ skip) × Shared groups size skip paginate n s
  unfolding group_pages
  group_pages-Shared exact groups size skip paginate zero h k l m =
      let (q, e, bounds) = group_round_lem exact groups size 0 skip paginate h k l m in
      (
        skip,
        m,
        λ z. refl,
        (q, group_pages-last (pos groups) (pos size) 0 (pos skip, pos paginate) ∙ e, bounds),
      )
  group_pages-Shared exact groups size skip paginate (suc n) h k l m =
      let (s, below, _, shared) =
        group_pages-Shared exact groups size skip paginate n (omega arith) k l m in
      let (below', shared') = Shared-suc exact groups size skip paginate n s h k l below shared in
      (s + shared.0, below', λ z. absurd (omega arith), shared')

  -- From the numbers of the loop to the rows from `start` to `end`.
  Shared-rows :
      (groups size skip n paginate s : ℕ)
      → n < groups
      → size ≤ exact_bound
      → s ≤ size
      → (shared : Shared groups size skip paginate n s)
      → (r : Range) × (window ceil_quotient (grouped groups skip (suc n) (pos paginate)) size
          ≡ ok r)
        × (r.start ≡ s)
        × (r.end ≡ s + shared.0)
  unfolding window raw_window range
  Shared-rows groups size skip n paginate s h k l (q, e, bounds) =
      let few = IsCeil-le (size - s) (groups - n) q (omega arith) bounds in
      let some_groups : (groups == 0) ≡ false = ground arith in
      let page : at_least_one (pos (suc n)) ≡ pos (suc n) = ground arith in
      let rows = some_rows-pos q in
      let (r, same, _, _, shape) =
        range_cases unsorted size s (some_rows (pos q)) (ground (arith, rows, few)) in
      let none_left : q ≡ 0 → s ≡ size =
        λ z. omega (arith, IsCeil-none (size - s) (groups - n) q z bounds.0) in
      elim shape [
        | inl (_, starts, below, short, ends) ↦ (
          r,
          rw (window, raw_window, some_groups, page, e, not_negative-pos s) same,
          starts,
          ground (arith, rows, few, none_left),
        )
        | inr (sorted, _, _) ↦ cc
      ]

  -- The pages of a query in groups, without an order, of at most 2^24 rows: the page after `n` pages
  -- is computed, and lies within the rows. The first page starts behind the rows to skip, each page
  -- where the page before it ends, and the last group ends with the rows. A page takes its share,
  -- rounded up, of the rows that the pages before it leave.
  pub window_groups :
      IsExact ceil_quotient
      → (groups size skip paginate n : ℕ) → n < groups
      → groups ≤ max_int
      → size ≤ exact_bound
      → skip ≤ size
      → (r : Range) × (window ceil_quotient (grouped groups skip (suc n) (pos paginate)) size
          ≡ ok r)
        × (r.start ≤ r.end)
        × (r.end ≤ size)
        × (n ≡ 0 → r.start ≡ skip)
        × (suc n ≡ groups → r.end ≡ size)
        × (suc n < groups
            → (r' : Range) × (window ceil_quotient
                  (grouped groups skip (suc (suc n)) (pos paginate))
                  size
                ≡ ok r')
              × (r'.start ≡ r.end))
        × IsCeil (size - r.start) (groups - n) (r.end - r.start)
  window_groups exact groups size skip paginate n h k l m =
      let (s, below, first, shared) =
        group_pages-Shared exact groups size skip paginate n h k l m in
      let (r, e, starts, ends) = Shared-rows groups size skip n paginate s h l below shared in
      let few = IsCeil-le (size - s) (groups - n) shared.0 (omega arith) shared.2 in
      let share : r.end - r.start ≡ shared.0 = omega arith in
      (
        r,
        e,
        omega arith,
        omega (arith, few),
        λ z. starts ∙ first z,
        λ z. omega (arith, IsCeil-last (size - s) (groups - n) shared.0 (omega arith) shared.2),
        λ h'.
            let (below', shared') =
              Shared-suc exact groups size skip paginate n s h' k l below shared in
            let (r', e', starts', _) =
              Shared-rows groups size skip (suc n) paginate (s + shared.0) h' l below' shared' in
            (r', e', omega arith),
        rw (share, starts) shared.2,
      )
