-- ===== src/Response/Sort/Laws.antt =====
-- Whether `sortCallback` is an order that `sort` can use.
use vae_thrift.Prelude.{◌≡◌, if◌then◌else◌, Bool, not, Option, none, some}
use vae_thrift.Prelude.Int.{ℤ, pos, ltb_ℤ}
use vae_thrift.Prelude.Bytes.{Bytes, bytes}
use vae_thrift.Exec.{Result, ok, diverges}
use vae_thrift.Util.Compare.{Lexical, IsOrdered, str_compare_nat}
use vae_thrift.Response.Options.{SortField, asc}
use vae_thrift.Response.Sort.{Answers, same_int}

-- The field is no descending order of the ids.
abbrev pub IsStrict : SortField → Type 0
IsStrict f = f.field ≡ bytes "id" → f.direction ≡ asc

-- The decision the other way round.
abbrev opposite : Option Bool → Option Bool
opposite none = none
opposite (some b) = some (not b)

-- What two numbers decide.
abbrev decided : ℤ → ℤ → Option Bool
decided a b = if same_int a b then none else some (ltb_ℤ a b)

abbrev signed : ℤ → Option Bool
signed i = if same_int i (pos 0) then none else some (ltb_ℤ (pos 0) i)

module _ {Context : Type 0} (answers : Answers Context) (x : Lexical) (o : IsOrdered x) where
  open answers use {id_of, count_of, data_of}

  by_data : Bytes → Bytes → Result (Option Bool)
  by_data s u = elim (str_compare_nat x 1 s u) [
    | none ↦ diverges
    | some icomp ↦ ok (if same_int icomp (pos 0) then none else some (ltb_ℤ (pos 0) icomp))
  ]
