-- ===== src/Response/Laws.antt =====
-- What the page holds: a window of the contexts of the rows that match.
use vae_thrift.Prelude.{
  ℕ, suc, ◌+◌, ◌-◌, ◌≤◌, ◌≡◌, refl, sym, true, false, ap, ◌∙◌, ltb, if◌then◌else◌, Bool, none, some,
  List, [], ◌∷◌, ◌++◌, arith, Bool-cases, Option-cases, take, drop, length, tests, drop-nil,
  take-nil, inl, inr,
}
use vae_thrift.Prelude.Bytes.{Bytes}
use vae_thrift.Response.{Rows, Page, is_match, include_node, pick_rows, first_page}
use vae_thrift.Exec.{Result, ok, and_then, map_result, and_then_congr, and_then_assoc}
use mathlib.Core.List.{append_assoc, append-nil}

module _ (r : Rows) (filter unique : Bool) where
  -- The rows that match, in their order, when `found` has been met before, or what a test throws.
  unfoldable pub matching : List r.Node → List Bytes → Result (List r.Node)
  matching [] found = ok []
  matching (node ∷ nodes) found =
      and_then (is_match r filter unique node found) λ (m : Bool × List Bytes).
        map_result (λ rest. if m.0 then node ∷ rest else rest) (matching nodes m.1)

  -- The contexts of rows, without the null ones.
  abbrev pub contexts_of : List r.Node → List r.Context
  contexts_of [] = []
  contexts_of (node ∷ nodes) = elim (r.context_of node) [
    | none ↦ contexts_of nodes
    | some c ↦ c ∷ contexts_of nodes
  ]

  -- The loop over rows that all match.
  unfoldable include_all : ℕ → ℕ → List r.Node → Page r.Context → Page r.Context
  include_all start end [] p = p
  include_all start end (node ∷ nodes) p =
      include_all start end nodes (include_node r filter unique start end node p)

  -- One row, when the others are done.
  matching_step :
      (start end : ℕ) (node : r.Node) (b : Bool) (p : Page r.Context) (rest : Result (List r.Node))
      → map_result
          (λ rows.
            include_all start end rows
              (if b then include_node r filter unique start end node p else p))
          rest
        ≡ map_result
            (λ rows. include_all start end rows p)
            (map_result (λ (rows : List r.Node). if b then node ∷ rows else rows) rest)
  unfolding include_all
  matching_step start end node true p rest =
      sym
        (and_then_assoc rest (λ rows. ok (node ∷ rows)) (λ rows. ok (include_all start end rows p)))
  matching_step start end node false p rest =
      sym (and_then_assoc rest (λ rows. ok rows) (λ rows. ok (include_all start end rows p)))

  pick_rows-matching :
      (start end : ℕ) (nodes : List r.Node) (found : List Bytes) (p : Page r.Context)
      → pick_rows r filter unique start end nodes found p
        ≡ map_result (λ rows. include_all start end rows p) (matching nodes found)
  unfolding pick_rows matching include_all
  pick_rows-matching start end [] found p = refl
  pick_rows-matching start end (node ∷ nodes) found p =
      and_then_congr (is_match r filter unique node found) (λ (m : Bool × List Bytes).
        pick_rows-matching start end nodes m.1
          (if m.0 then include_node r filter unique start end node p else p)
        ∙ matching_step start end node m.0 p (matching nodes m.1))
      ∙ sym (
          and_then_assoc (is_match r filter unique node found)
            (λ (m : Bool × List Bytes).
              map_result (λ (rest : List r.Node). if m.0 then node ∷ rest else rest)
                (matching nodes m.1))
            (λ rows. ok (include_all start end rows p)))

  total-include_all :
      (start end : ℕ) (nodes : List r.Node) (p : Page r.Context)
      → (include_all start end nodes p).total ≡ p.total + length nodes
  unfolding include_all include_node
  total-include_all start end [] p = omega arith
  total-include_all start end (node ∷ nodes) p =
      ground
        (arith, total-include_all start end nodes (include_node r filter unique start end node p))

  -- What the loop still adds to the contexts of `p`, when the rows `nodes` are yet to match.
  abbrev window : ℕ → ℕ → Page r.Context → List r.Node → List r.Context
  window start end p nodes =
      p.contexts ++ take (end - start - p.included) (contexts_of (drop (start - p.skipped) nodes))

  window-include_node :
      (start end : ℕ) (node : r.Node) (nodes : List r.Node) (p : Page r.Context)
      → p.skipped ≤ start
      → window start end (include_node r filter unique start end node p) nodes
        ≡ window start end p (node ∷ nodes)
  unfolding include_node
  window-include_node start end node nodes p h = elim (Bool-cases (ltb p.skipped start)) [
    | inl below ↦
        let step : start - p.skipped ≡ suc (start - (p.skipped + 1)) = omega (tests, below) in
        rw (step, below) refl
    | inr here ↦
        let none_left : start - p.skipped ≡ 0 = ground arith in
        elim (Bool-cases (ltb (p.included + p.skipped) end)) [
          | inl room ↦
              let one_more : end - start - p.included ≡ suc (end - start - (p.included + 1)) =
                ground arith in
              elim (Option-cases (r.context_of node)) [
                | inl null ↦ rw (none_left, here, room, null, none_left) refl
                | inr (c, there) ↦
                    rw (none_left, here, room, there, one_more, none_left)
                      (append_assoc p.contexts (c ∷ [])
                        (take (end - start - (p.included + 1)) (contexts_of nodes)))
              ]
          | inr full ↦
              let no_room : end - start - p.included ≡ 0 = ground arith in
              rw (no_room, here, full, no_room) refl
        ]
  ]

  skipped-include_node :
      (start end : ℕ) (node : r.Node) (p : Page r.Context)
      → p.skipped ≤ start
      → (include_node r filter unique start end node p).skipped ≤ start
  unfolding include_node
  skipped-include_node start end node p h = ground arith

  contexts-include_all :
      (start end : ℕ) (nodes : List r.Node) (p : Page r.Context)
      → p.skipped ≤ start
      → (include_all start end nodes p).contexts ≡ window start end p nodes
  unfolding include_all
  contexts-include_all start end [] p h =
      rw (drop-nil (start - p.skipped), take-nil (end - start - p.included), append-nil p.contexts)
        refl
  contexts-include_all start end (node ∷ nodes) p h =
      contexts-include_all start end nodes (include_node r filter unique start end node p)
        (skipped-include_node start end node p h)
      ∙ window-include_node start end node nodes p h

  abbrev pub page_view : Page r.Context → ℕ × List r.Context
  page_view page = (page.total, page.contexts)

  abbrev pub rows_view : ℕ → ℕ → List r.Node → ℕ × List r.Context
  rows_view start end rows = (length rows, take (end - start) (contexts_of (drop start rows)))

  -- A filtered or unique query: the loop throws what the first test on a row throws, and returns if none
  -- does. Then the total is the number of the rows that match, and the page holds the contexts of these
  -- rows but the first `start`, at most `end - start` of them, in their order; rows without a
  -- context are passed over.
  pub pick_rows_window :
      (start end : ℕ) (nodes : List r.Node)
      → map_result page_view
          (pick_rows r filter unique start end nodes [] (first_page r filter unique))
        ≡ map_result (rows_view start end) (matching nodes [])
  pick_rows_window start end nodes =
      ap (map_result page_view) (pick_rows-matching start end nodes [] (first_page r filter unique))
      ∙ and_then_assoc (matching nodes [])
          (λ rows. ok (include_all start end rows (first_page r filter unique)))
          (λ page. ok (page_view page))
      ∙ and_then_congr (matching nodes []) (λ (rows : List r.Node).
        let totals = total-include_all start end rows (first_page r filter unique) in
        let picked =
          contexts-include_all start end rows (first_page r filter unique) (omega arith) in
        ground (arith, totals, picked))
