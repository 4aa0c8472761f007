-- ===== src/Response/Query/Picked.antt =====
-- What the two loops over the rows pick.
use vae_thrift.Prelude.{
  drop-cons, ℕ, zero, suc, ◌+◌, ◌-◌, ◌≤◌, ◌≡◌, refl, sym, true, false, ap, ◌∙◌, ◌⊎◌, inl, inr,
  if◌then◌else◌, Bool, ◌||◌, some, List, [], ◌∷◌, ◌++◌, length, take, drop, arith, Bool-cases,
  Option-cases, All,
}
use mathlib.Core.List.{append_assoc, append-nil}
use vae_thrift.Prelude.Bytes.{Bytes}
use vae_thrift.Exec.{
  Result, ok, and_then, map_result, and_then_assoc, and_then_congr_ok, and_then-eq-ok,
}
use vae_thrift.Response.{Rows, is_match, pick_rows, first_page}
use vae_thrift.Response.Laws.{matching, contexts_of, page_view, rows_view, pick_rows_window}
use vae_thrift.Response.Window.{Range}
use vae_thrift.Response.Query.{Orders, ResponseContext, plain_rows, choose_rows}

module _ (r : Rows) (orders : Orders r.Context) (filter unique : Bool) where
  -- Every node has its context.
  abbrev pub IsComplete : List r.Node → Type 0
  IsComplete nodes = All (λ (node : r.Node). (c : r.Context) × (r.context_of node ≡ some c)) nodes

  -- The rows that a query is about, or what a test on a row throws.
  abbrev pub selected : List r.Node → Result (List r.Node)
  selected nodes = if filter || unique then matching r filter unique nodes [] else ok nodes

  plain_rows_lem :
      (nodes : List r.Node) (n i : ℕ) (cs : List r.Context)
      → (n ≡ 0) ⊎ (i + n ≤ length nodes)
      → plain_rows r orders filter unique nodes n i cs
        ≡ ok (cs ++ contexts_of r filter unique (take n (drop i nodes)))
  unfolding plain_rows
  plain_rows_lem nodes zero i cs h = rw (append-nil cs) refl
  plain_rows_lem nodes (suc n) i cs h =
      let (node, there, next) = drop-cons i nodes (ground arith) in
      let more = λ (cs' : List r.Context). plain_rows_lem nodes n (suc i) cs' (ground arith) in
      elim (Option-cases (r.context_of node)) [
        | inl null ↦ rw (plain_rows, there, null, next, null) (more cs)
        | inr (c, has) ↦
            rw (plain_rows, there, has, next, has)
              (more (cs ++ (c ∷ []))
                ∙ ap ok (
                    append_assoc cs (c ∷ [])
                      (contexts_of r filter unique (take n (drop (suc i) nodes)))))
      ]

  drop-IsComplete : (n : ℕ) (nodes : List r.Node) → IsComplete nodes → IsComplete (drop n nodes)
  drop-IsComplete zero nodes h = h
  drop-IsComplete (suc n) [] h = tt
  drop-IsComplete (suc n) (node ∷ nodes) h = drop-IsComplete n nodes h.1

  contexts_of-drop :
      (n : ℕ) (nodes : List r.Node)
      → IsComplete nodes
      → contexts_of r filter unique (drop n nodes) ≡ drop n (contexts_of r filter unique nodes)
  contexts_of-drop zero nodes h = refl
  contexts_of-drop (suc n) [] h = refl
  contexts_of-drop (suc n) (node ∷ nodes) ((c, has), h) =
      rw (contexts_of, has) (contexts_of-drop n nodes h)

  contexts_of-take :
      (n : ℕ) (nodes : List r.Node)
      → IsComplete nodes
      → contexts_of r filter unique (take n nodes) ≡ take n (contexts_of r filter unique nodes)
  contexts_of-take zero nodes h = refl
  contexts_of-take (suc n) [] h = refl
  contexts_of-take (suc n) (node ∷ nodes) ((c, has), h) =
      rw (contexts_of, has) (ap (◌∷◌ c) (contexts_of-take n nodes h))

  length-contexts_of :
      (nodes : List r.Node) → length (contexts_of r filter unique nodes) ≤ length nodes
  length-contexts_of [] = omega arith
  length-contexts_of (node ∷ nodes) = ground (arith, length-contexts_of nodes)

  -- The rows that match are some of the rows.
  pub matching-some :
      (nodes : List r.Node) (found : List Bytes) (rows : List r.Node)
      → matching r filter unique nodes found ≡ ok rows
      → (length rows ≤ length nodes) × (IsComplete nodes → IsComplete rows)
  unfolding matching
  matching-some [] found rows h =
      let none_there : rows ≡ [] = cc in rw none_there (omega arith, λ complete. tt)
  matching-some (node ∷ nodes) found rows h =
      let (m, tested, h') = and_then-eq-ok (is_match r filter unique node found) _ h in
      let (rest, more, e) = and_then-eq-ok (matching r filter unique nodes m.1) _ h' in
      let (short, complete) = matching-some nodes m.1 rest more in
      let same : (if m.0 then node ∷ rest else rest) ≡ rows = cc in
      rw (sym same)
        (elim m.0
          as (λ b.
            (length (if b then node ∷ rest else rest) ≤ suc (length nodes))
            × (IsComplete (node ∷ nodes) → IsComplete (if b then node ∷ rest else rest))) [
              | true ↦ (omega arith, λ c. (c.0, complete c.1))
              | false ↦ (omega arith, λ c. complete c.1)
            ])

  pub selected-some :
      (nodes rows : List r.Node)
      → selected nodes ≡ ok rows
      → (length (contexts_of r filter unique rows) ≤ length nodes)
        × (IsComplete nodes → IsComplete rows)
  selected-some nodes rows h = elim (Bool-cases (filter || unique)) [
    | inl e ↦
        let found : matching r filter unique nodes [] ≡ ok rows = ground (arith, h, e) in
        let (short, complete) = matching-some nodes [] rows found in
        (omega (arith, short, length-contexts_of rows), complete)
    | inr e ↦
        let same : nodes ≡ rows = ground (arith, h, e) in
        rw (sym same) (length-contexts_of nodes, λ c. c)
  ]

  -- What the loops make of the selected rows.
  abbrev pub picked : Range → List r.Node → ResponseContext r.Context
  picked w rows = record {
    contexts = take (w.end - w.start) (drop w.start (contexts_of r filter unique rows));
    total = length rows;
  }

  -- Where every node has a context, the loops pick a slice of the contexts of the selected rows.
  pub choose_rows_lem :
      (nodes : List r.Node) (w : Range)
      → IsComplete nodes
      → w.end ≤ length nodes
      → choose_rows r orders filter unique nodes w ≡ map_result (picked w) (selected nodes)
  unfolding choose_rows
  choose_rows_lem nodes w complete h = elim (Bool-cases (filter || unique)) [
    | inl e ↦
        let shown : ℕ × List r.Context → Result (ResponseContext r.Context) =
          λ v. ok (record { contexts = v.1; total = v.0 }) in
        rw (choose_rows, e)
          (sym (
              and_then_assoc
                (pick_rows r filter unique w.start w.end nodes [] (first_page r filter unique))
                (λ page. ok (page_view r filter unique page)) shown)
            ∙ ap (λ found. and_then found shown)
                (pick_rows_window r filter unique w.start w.end nodes)
            ∙ and_then_assoc (matching r filter unique nodes [])
                (λ rows. ok (rows_view r filter unique w.start w.end rows)) shown
            ∙ and_then_congr_ok (matching r filter unique nodes []) (λ rows found.
              ap (λ cs. ok (record { contexts = take (w.end - w.start) cs; total = length rows }))
                (contexts_of-drop w.start rows ((matching-some nodes [] rows found).1 complete))))
    | inr e ↦
        rw (choose_rows, e, plain_rows_lem nodes (w.end - w.start) w.start [] (ground arith))
          (ap (λ cs. ok (record { contexts = cs; total = length nodes }))
            (contexts_of-take (w.end - w.start) (drop w.start nodes)
                (drop-IsComplete w.start nodes complete)
              ∙ ap (take (w.end - w.start)) (contexts_of-drop w.start nodes complete)))
  ]
