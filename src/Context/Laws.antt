-- ===== src/Context/Laws.antt =====
-- What a context remembers never shows in its answers.
use vae_thrift.Prelude.{
  ◌≡◌, refl, sym, ap, ◌∙◌, if◌then◌else◌, true, none, some, List, [], ◌∷◌, ite, arith, Option-cases,
  inl, inr,
}
use vae_thrift.Prelude.Int.{ℤ}
use vae_thrift.Prelude.Bytes.{Bytes}
use vae_thrift.Prelude.Eq.{Bytes-discrete, bytes_eq}
use vae_thrift.Prelude.Map.{Map, find, assign, find-assign}
use vae_thrift.Exec.{Result, ok, Result-cases}
use vae_thrift.Xml.{Node, children}
use vae_thrift.Context.{
  populate, Context, populate_data, get_count, empty_query, query_data, get_data, all_data, fresh,
  Call, count_call, data_call, all_call, Reply, count, datum, all_data_of, answer, answers,
}

module _ (node : Node) (size : Bytes → Result ℤ) (single : Bytes → Result Bytes) where
  -- The data that a context of the node has once it is populated.
  abbrev pub node_data : Map Bytes Bytes
  node_data = populate [] (children node)

  -- Every remembered answer is the one that the query gives.
  pub record IsCoherent (c : Context node size single) : Type 0 where
    pub counts : (q : Bytes) (n : ℤ) → find q c.cached_counts ≡ some n → size q ≡ ok n
    pub queries : (q v : Bytes) → find q c.cached_queries ≡ some v → single q ≡ ok v
    pub entries : c.data_map ≡ (if c.data_populated then node_data else [])

  fresh-IsCoherent : IsCoherent (fresh node size single)
  unfolding find
  fresh-IsCoherent = record { counts = λ q n h. cc; queries = λ q v h. cc; entries = refl }

  populated :
      (c : Context node size single)
      → IsCoherent c
      → ((populate_data node size single c).cached_counts ≡ c.cached_counts)
        × ((populate_data node size single c).cached_queries ≡ c.cached_queries)
        × ((populate_data node size single c).data_map ≡ node_data)
        × ((populate_data node size single c).data_populated ≡ true)
  unfolding populate_data
  populated c h = (ground arith, ground arith, ground (arith, h.entries), ground arith)

  populate_data-IsCoherent :
      (c : Context node size single) → IsCoherent c → IsCoherent (populate_data node size single c)
  populate_data-IsCoherent c h =
      let (counts, queries, entries, done) = populated c h in
      record {
        counts = λ q n f. h.counts q n (ap (find q) (sym counts) ∙ f);
        queries = λ q v f. h.queries q v (ap (find q) (sym queries) ∙ f);
        entries = rw done entries;
      }

  counts-assign :
      (q : Bytes) (n : ℤ) (c : Context node size single)
      → IsCoherent c
      → size q ≡ ok n
      → IsCoherent (record c { cached_counts = assign q n c.cached_counts })
  counts-assign q n c h e = record {
    counts = λ k m f. ground (arith, find-assign q k n c.cached_counts, h.counts k m);
    queries = h.queries;
    entries = h.entries;
  }

  queries-assign :
      (q v : Bytes) (c : Context node size single)
      → IsCoherent c
      → single q ≡ ok v
      → IsCoherent (record c { cached_queries = assign q v c.cached_queries })
  queries-assign q v c h e = record {
    counts = h.counts;
    queries = λ k w f. ground (arith, find-assign q k v c.cached_queries, h.queries k w);
    entries = h.entries;
  }

  -- A call that answers `r` and leaves a coherent context.
  abbrev IsRight : {A : Type 0} → Result A → Result A × Context node size single → Type 0
  IsRight r (r', c') = (r' ≡ r) × IsCoherent c'

  get_count_lem :
      (q : Bytes) (c : Context node size single)
      → IsCoherent c
      → IsRight (size q) (get_count node size single q c)
  unfolding get_count
  get_count_lem q c h = elim (Option-cases (find q c.cached_counts)) [
    | inr (n, there) ↦ (ground (arith, h.counts q n there), ground (arith, there))
    | inl none' ↦ elim (Result-cases (size q)) [
      | inl (n, e) ↦ rw (get_count, none', e) (refl, counts-assign q n c h e)
      | inr (inl (x, e)) ↦ rw (get_count, none', e) (refl, h)
      | inr (inr (inl e)) ↦ rw (get_count, none', e) (refl, h)
      | inr (inr (inr e)) ↦ rw (get_count, none', e) (refl, h)
    ]
  ]

  query_data_lem :
      (q : Bytes) (c : Context node size single)
      → IsCoherent c
      → IsRight (single q) (query_data node size single q c)
  unfolding query_data
  query_data_lem q c h = elim (Option-cases (find q c.cached_queries)) [
    | inr (v, there) ↦ (ground (arith, h.queries q v there), ground (arith, there))
    | inl none' ↦ elim (Result-cases (single q)) [
      | inl (v, e) ↦ rw (query_data, none', e) (refl, queries-assign q v c h e)
      | inr (inl (x, e)) ↦ rw (query_data, none', e) (refl, h)
      | inr (inr (inl e)) ↦ rw (query_data, none', e) (refl, h)
      | inr (inr (inr e)) ↦ rw (query_data, none', e) (refl, h)
    ]
  ]

  -- What `getData` is to give: an error for the empty query, the text of the child of that name,
  -- or what the query finds.
  abbrev pub datum_of : Bytes → Result Bytes
  datum_of q =
      ite (Bytes-discrete q []) (empty_query node size single)
        (elim (find q node_data) [ some v ↦ ok v | none ↦ single q ])

  get_data_lem :
      (q : Bytes) (c : Context node size single)
      → IsCoherent c
      → IsRight (datum_of q) (get_data node size single q c)
  unfolding get_data
  get_data_lem q c h =
      let h' = populate_data-IsCoherent c h in
      let (counts, queries, entries, done) = populated c h in
      elim (Bytes-discrete q []) [
        | yes e ↦ (ground arith, ground arith)
        | no ne ↦ elim (Option-cases (find q node_data)) [
          | inr (v, there) ↦ (ground (arith, entries), ground (arith, entries))
          | inl absent ↦
              let (r, k) = query_data_lem q (populate_data node size single c) h' in
              (ground (arith, entries, r), ground (arith, entries, k))
        ]
      ]

  all_data_lem :
      (c : Context node size single)
      → IsCoherent c
      → IsRight (ok node_data) (all_data node size single c)
  unfolding all_data
  all_data_lem c h =
      let (counts, queries, entries, done) = populated c h in
      (ap ok entries, populate_data-IsCoherent c h)

  -- The answers of a context that remembers nothing.
  abbrev pub reply_of : Call node size single → Reply node size single
  reply_of (count_call q) = count (size q)
  reply_of (data_call q) = datum (datum_of q)
  reply_of all_call = all_data_of (ok node_data)

  answer_lem :
      (call : Call node size single) (c : Context node size single)
      → IsCoherent c
      → ((answer node size single call c).0 ≡ reply_of call)
        × IsCoherent (answer node size single call c).1
  unfolding answer
  answer_lem (count_call q) c h = let (r, k) = get_count_lem q c h in (ap count r, k)
  answer_lem (data_call q) c h = let (r, k) = get_data_lem q c h in (ap datum r, k)
  answer_lem all_call c h = let (r, k) = all_data_lem c h in (ap all_data_of r, k)

  abbrev pub replies : List (Call node size single) → List (Reply node size single)
  replies [] = []
  replies (call ∷ calls) = reply_of call ∷ replies calls

  answers-IsCoherent :
      (calls : List (Call node size single)) (c : Context node size single)
      → IsCoherent c
      → answers node size single calls c ≡ replies calls
  unfolding answers
  answers-IsCoherent [] c h = refl
  answers-IsCoherent (call ∷ calls) c h =
      let (r, k) = answer_lem call c h in
      ap (λ x. x ∷ answers node size single calls (answer node size single call c).1) r
      ∙ ap (◌∷◌ (reply_of call)) (answers-IsCoherent calls (answer node size single call c).1 k)

  -- Whatever calls a client makes, in any order, a context answers each as if it remembered nothing:
  -- `getCount` and `getData` give what a query of the document gives at that moment, its exceptions
  -- included, `getData` first looks among the children of the node and refuses the empty query, and
  -- all the data are those of the children.
  pub answers-replies :
      (calls : List (Call node size single))
      → answers node size single calls (fresh node size single) ≡ replies calls
  answers-replies calls = answers-IsCoherent calls (fresh node size single) fresh-IsCoherent
