-- ===== src/Response/Create.antt =====
-- `createInfo` in cpp/response.cpp and the second constructor of `Response`: where a client can
-- create something. The queries of the site and of its design are the interface `Pages`.
use vae_thrift.Prelude.{
  ◌==◌, if◌then◌else◌, ite, Bool, true, false, not, ◌&&◌, Option, none, some, List, [], ◌∷◌, ◌++◌,
}
use mathlib.Core.List.{flatten}
use vae_thrift.Prelude.Int.{ℤ, pos, negsuc}
use vae_thrift.Prelude.Bytes.{Bytes, bytes}
use vae_thrift.Prelude.Atoi.{atoi}
use vae_thrift.Prelude.Eq.{Bytes-discrete}
use vae_thrift.Exec.{Result, ok, raise, undefined, and_then, map_result, query_error}

-- `boost::split` and `boost::join` at slashes; `fetch_query`, with the contexts of the nodes found;
-- `runDesignQuery`, with the attributes of the nodes found; `getId`.
pub record Pages (Context : Type 0) : Type 0 where
  pub split : Bytes → List Bytes
  pub join : List Bytes → Bytes
  pub fetch_query : Option Context → Bytes → Result (List (Option Context))
  pub run_design_query : Option Context → Bytes → Result (List (List (Bytes × Bytes)))
  pub id_of : Context → ℤ

-- VaeDbCreateInfo
pub record CreateInfo : Type 0 where
  pub structure_id : ℤ
  pub row_id : ℤ

-- `queryParts.back()`, and `queryParts` after `pop_back()`.
unfoldable pub split_last {ℓ} : {A : Type ℓ} → List A → Option (A × List A)
split_last [] = none
split_last (x ∷ xs) = elim (split_last xs) [
  | none ↦ some (x, [])
  | some (last, before) ↦ some (last, x ∷ before)
]

abbrev is_text : Bytes → Bytes → Bool
is_text s t = ite (Bytes-discrete s t) true false

abbrev is_zero : ℤ → Bool
is_zero (pos n) = n == 0
is_zero (negsuc n) = false

abbrev is_empty {ℓ} : {A : Type ℓ} → List A → Bool
is_empty [] = true
is_empty (x ∷ xs) = false

-- The loop over the attributes.
unfoldable pub read_id : List (Bytes × Bytes) → ℤ → ℤ
read_id [] id = id
read_id ((name, content) ∷ attrs) id =
    read_id attrs (if is_text name (bytes "id") then atoi content else id)

module _ {Context : Type 0} (pages : Pages Context) where
  open pages use {split, join, fetch_query, run_design_query, id_of}

  -- The context to create in, for a path of these parts but the last.
  unfoldable pub create_context : Option Context → List Bytes → Bytes → Result (Option Context)
  create_context context parts last_part =
      let main_query = join parts in
      if is_text main_query [] && not (is_text last_part []) && not (is_empty parts)
      then ok none
      else if is_text main_query []
      then ok context
      else map_result
          (λ (found : List (Option Context)). elim found [ [] ↦ context | node ∷ more ↦ node ])
          (fetch_query context main_query)

  unfoldable pub row_id_of : Option Context → ℤ
  row_id_of none = pos 0
  row_id_of (some context) = id_of context

  -- The structure to create, below the context.
  unfoldable pub create_structure : Option Context → Bytes → Bytes → Result CreateInfo
  create_structure context last_part query =
      if is_zero (atoi last_part)
      then and_then (run_design_query context last_part) (λ found. elim found [
        | [] ↦
            raise
              (query_error (bytes "could not find path for creating: '" ++ (query ++ bytes "'")))
        | attrs ∷ more ↦
            ok (record { structure_id = read_id attrs (pos 0); row_id = row_id_of context })
      ])
      else raise (query_error (bytes "invalid path for creating: '" ++ (query ++ bytes "'")))

  unfoldable pub create_info : Option Context → Bytes → Result CreateInfo
  create_info context query = elim (split_last (split query)) [
    | none ↦ undefined
    | some (last_part, parts) ↦
        and_then (create_context context parts last_part)
          λ context'. create_structure context' last_part query
  ]

  -- The constructor, for each of the contexts in the lists of the parent.
  unfoldable pub create_infos : List Context → Bytes → Result (List CreateInfo)
  create_infos [] query = ok []
  create_infos (context ∷ contexts) query =
      let more = create_infos contexts query in
      and_then (create_info (some context) query) λ info. map_result (λ infos. info ∷ infos) more

  unfoldable pub new_create_response :
      Option (List (List Context)) → Bytes → Result (List CreateInfo)
  new_create_response none query = map_result (λ info. info ∷ []) (create_info none query)
  new_create_response (some parent) query = create_infos (flatten parent) query
