-- ===== src/Response/Options.antt =====
-- The first constructor of `Response` in cpp/response.cpp: what it reads from the options of a query.
-- The regular expressions, with `set_caseless(true)`, and `boost::split` are pcrecpp's and boost's:
-- the interface `Pcre`.
use vae_thrift.Prelude.{
  ℕ, ◌==◌, leb, if◌then◌else◌, ite, Bool, true, false, ◌&&◌, ◌||◌, Option, none, some, List, [],
  ◌∷◌, ◌++◌, map,
}
use vae_thrift.Prelude.Int.{ℤ, pos, negsuc}
use vae_thrift.Prelude.Bytes.{Bytes, bytes}
use vae_thrift.Prelude.Atoi.{atoi}
use vae_thrift.Prelude.Eq.{Bytes-discrete, bytes_eq}
use vae_thrift.Prelude.Map.{Map, find}
use vae_thrift.Query.Rewrite.{Pcre, same_caseless}
use vae_thrift.Response.Window.{SortType, unsorted, reverse, shuffle, specific, Paging}

-- enum SortOrder
pub data SortOrder : Type 0 where
  asc desc : SortOrder

pub record SortField : Type 0 where
  pub field : Bytes
  pub count : Bool
  pub direction : SortOrder

-- The members of a response that its options set.
pub record Settings : Type 0 where
  pub paging : Paging
  pub filter_terms : Option (List Bytes)
  pub unique_fields : Option (List Bytes)
  pub sort_fields : List SortField

abbrev is_white : ℕ → Bool
is_white c = c == 32 || (leb 9 c && leb c 13)

-- `while (ss >> buf)`: the words of a string; `word` is the one that is being read.
unfoldable pub words_from : Bytes → Bytes → List Bytes
words_from [] [] = []
words_from (c ∷ word) [] = (c ∷ word) ∷ []
words_from word (c ∷ s) =
    let rest = words_from [] s in
    let longer = words_from (word ++ (c ∷ [])) s in
    if is_white c then elim word [ [] ↦ rest | b ∷ bs ↦ (b ∷ bs) ∷ rest ] else longer

abbrev is_text : Bytes → Bytes → Bool
is_text s t = ite (Bytes-discrete s t) true false

-- A number of the options, or the number that stood there before.
unfoldable pub int_option : Bytes → Map Bytes Bytes → ℤ → ℤ
int_option name options before = elim (find name options) [ none ↦ before | some text ↦ atoi text ]

-- `page` and `paginate`, after the option `page`.
unfoldable pub page_option : Map Bytes Bytes → ℤ → ℤ × ℤ
page_option options paginate = elim (find (bytes "page") options) [
  | none ↦ (pos 1, paginate)
  | some page ↦
      if is_text page (bytes "last()") || is_text page (bytes "last")
      then (negsuc 0, paginate)
      else if is_text page (bytes "all") || is_text page (bytes "all()")
      then (pos 1, pos 999999999)
      else (atoi page, paginate)
]

module _ (p : Pcre) where
  open p use {replace, full_match_1, split}

  abbrev pub field_pattern : Bytes → Bytes
  field_pattern function = function ++ bytes "\\(([.A-Za-z0-9_()\\/]+)\\)"

  -- One term of the order.
  unfoldable pub sort_field : Bytes → SortField
  sort_field term =
      let (field, direction) : Bytes × SortOrder =
        elim (full_match_1 (field_pattern (bytes "DESC")) term) [
          | none ↦ (term, asc)
          | some field ↦ (field, desc)
        ] in
      elim (full_match_1 (field_pattern (bytes "COUNT")) field) [
        | none ↦ record { field = field; count = false; direction = direction }
        | some counted ↦ record { field = counted; count = true; direction = direction }
      ]

  -- The order, as it is after `Replace`.
  unfoldable pub read_order : Bytes → SortType × List SortField
  read_order order =
      if same_caseless order (bytes "DESC()")
      then (reverse, [])
      else if same_caseless order (bytes "RAND()")
      then (shuffle, [])
      else (specific, map sort_field (split (bytes ",") order))

  unfoldable pub order_option : Map Bytes Bytes → SortType × List SortField
  order_option options = elim (find (bytes "order") options) [
    | none ↦ (unsorted, [])
    | some order ↦
        ite (Bytes-discrete order []) (unsorted, [])
          (elim (replace (bytes "REVERSE\\(") (bytes "DESC(") order) [
            | none ↦ read_order order
            | some order' ↦ read_order order'
          ])
  ]

  unfoldable pub read_options : Map Bytes Bytes → Settings
  read_options options =
      let limit = int_option (bytes "limit") options (pos 99999999) in
      let (page, paginate) = page_option options (int_option (bytes "paginate") options limit) in
      let (sort_type, sort_fields) = order_option options in
      record {
        paging = record {
          groups = int_option (bytes "groups") options (pos 0);
          skip = int_option (bytes "skip") options (pos 0);
          page = page;
          paginate = paginate;
          sort_type = sort_type;
        };
        filter_terms = elim (find (bytes "filter") options) [
          | none ↦ none
          | some text ↦ some (words_from [] text)
        ];
        unique_fields = elim (find (bytes "unique") options) [
          | none ↦ none
          | some text ↦ some (split (bytes ",") text)
        ];
        sort_fields = sort_fields;
      }
