-- ===== src/Response/Window/Examples.antt =====
-- Seven rows in three groups.
use vae_thrift.Prelude.{ℕ, zero, suc, ◌+◌, ◌-◌, ◌/◌, ◌≤◌, ◌<◌, ◌≡◌, refl, Option, none, some, arith}
use native.Mathlib.Omega.{div_any, mod_fact}
use vae_thrift.Prelude.Int.{ℤ, pos, negsuc, ◌+ℤ◌, ◌-ℤ◌, ◌*ℤ◌}
use vae_thrift.Exec.{ok, undefined}
use vae_thrift.Response.Window.{
  Range, window, raw_window, plain_page, page_number, group_pages, group_round, range, unsorted,
}
use vae_thrift.Response.Window.Groups.{IsExact, IsCeil, grouped, window_groups}

abbrev pub rounded_up : ℤ → ℤ → Option ℤ
rounded_up (pos a) (pos zero) = none
rounded_up (pos a) (pos (suc b)) = some (pos ((a + b) / suc b))
rounded_up (pos a) (negsuc b) = none
rounded_up (negsuc a) b = none

rounded_up-IsCeil : (a b : ℕ) → IsCeil a (suc b) ((a + b) / suc b)
rounded_up-IsCeil a b =
    let whole = div_any (a + b) (suc b) in
    let rest = mod_fact (a + b) b in (omega (arith, whole, rest), omega (arith, whole, rest))

pub rounded_up-IsExact : IsExact rounded_up
rounded_up-IsExact a zero h k l = absurd (omega arith)
rounded_up-IsExact a (suc b) h k l = ((a + b) / suc b, refl, rounded_up-IsCeil a b)

second_group :
    window rounded_up (grouped 3 0 2 (pos 10)) 7
    ≡ ok (record { start = 3; end = 5; skip = 3; paginate = 2 })
unfolding window raw_window group_pages group_round range ◌+ℤ◌ ◌-ℤ◌
second_group = refl

-- Page 23 with no limit: the product does not fit into an `int`.
page_23 :
    window rounded_up
      (record {
        groups = pos 0;
        skip = pos 0;
        page = pos 23;
        paginate = pos 99999999;
        sort_type = unsorted;
      })
      7
    ≡ undefined
unfolding window raw_window plain_page page_number range ◌+ℤ◌ ◌-ℤ◌ ◌*ℤ◌
page_23 = refl

-- A page behind the last group: the rows left are divided by zero.
group_4 : window rounded_up (grouped 3 0 4 (pos 10)) 7 ≡ undefined
unfolding window raw_window group_pages group_round range ◌+ℤ◌ ◌-ℤ◌
group_4 = refl

window_groups_example :
    (r : Range) × (window rounded_up (grouped 3 0 2 (pos 10)) 7 ≡ ok r)
    × (r.start ≤ r.end)
    × (r.end ≤ 7)
    × (◌≡◌ {A = ℕ} 1 0 → r.start ≡ 0)
    × (◌≡◌ {A = ℕ} 2 3 → r.end ≡ 7)
    × (2 < 3
        → (r' : Range) × (window rounded_up (grouped 3 0 3 (pos 10)) 7 ≡ ok r')
          × (r'.start ≡ r.end))
    × IsCeil (7 - r.start) (3 - 1) (r.end - r.start)
window_groups_example =
    window_groups rounded_up rounded_up-IsExact 3 7 0 10 1 (omega arith) (omega arith) (omega arith)
      (omega arith)
