-- ===== src/Response/Sort.antt =====
-- `sortCallback` in cpp/response.cpp, the order of `sort`. What a context answers, or the exception
-- of its query, is the interface `Answers`; `Context.answers-replies` is the law behind it.
pub mod Laws
mod Examples
use vae_thrift.Prelude.{ℕ, if◌then◌else◌, ite, Bool, false, not, Option, none, some, List, [], ◌∷◌}
use vae_thrift.Prelude.Int.{ℤ, pos, ltb_ℤ}
use vae_thrift.Prelude.Bytes.{Bytes, bytes}
use vae_thrift.Prelude.Eq.{Bytes-discrete}
use vae_thrift.Exec.{Result, ok, diverges, and_then}
use vae_thrift.Util.Compare.{Lexical, str_compare_nat}
use vae_thrift.Response.Options.{SortField, SortOrder, asc, desc}

-- `getId`, `getCount` and `getData` of a context.
pub record Answers (Context : Type 0) : Type 0 where
  pub id_of : Context → ℤ
  pub count_of : Context → Bytes → Result ℤ
  pub data_of : Context → Bytes → Result Bytes

abbrev directed : SortOrder → Bool → Bool
directed asc comp = comp
directed desc comp = not comp

abbrev same_int : ℤ → ℤ → Bool
same_int a b = if ltb_ℤ a b then false else not (ltb_ℤ b a)

module _ {Context : Type 0} (answers : Answers Context) (x : Lexical) (digit : ℕ) where
  open answers use {id_of, count_of, data_of}

  -- What one field decides: `none` to go on with the next field.
  unfoldable pub compare_counts : SortField → Context → Context → Result (Option Bool)
  compare_counts f lhs rhs = and_then (count_of lhs f.field) λ lcount.
      and_then (count_of rhs f.field)
        λ rcount. ok (if same_int lcount rcount then none else some (ltb_ℤ lcount rcount))

  unfoldable pub compare_data : SortField → Context → Context → Result (Option Bool)
  compare_data f lhs rhs = and_then (data_of lhs f.field) λ ldata.
      and_then (data_of rhs f.field) λ rdata. elim (str_compare_nat x digit ldata rdata) [
        | none ↦ diverges
        | some icomp ↦ ok (if same_int icomp (pos 0) then none else some (ltb_ℤ (pos 0) icomp))
      ]

  unfoldable pub compare_field : SortField → Context → Context → Result (Option Bool)
  compare_field f lhs rhs =
      ite (Bytes-discrete f.field (bytes "id")) (ok (some (ltb_ℤ (id_of lhs) (id_of rhs))))
        (if f.count then compare_counts f lhs rhs else compare_data f lhs rhs)

  -- The loop over the fields.
  unfoldable pub sort_callback : List SortField → Context → Context → Result Bool
  sort_callback [] lhs rhs = ok false
  sort_callback (f ∷ fields) lhs rhs =
      let rest = sort_callback fields lhs rhs in
      and_then (compare_field f lhs rhs)
        λ decided. elim decided [ none ↦ rest | some comp ↦ ok (directed f.direction comp) ]
