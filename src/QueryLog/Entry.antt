-- ===== src/QueryLog/Entry.antt =====
-- `QueryLog` and `QueryLogEntry`. An entry collects its text and writes it to the log in one piece
-- when it goes out of scope. The streams' decimal output is the parameter `show`.
use vae_thrift.Prelude.{
  ℕ, ◌+◌, ◌%◌, ◌^◌, Bool, true, false, Option, none, some, List, [], ◌∷◌, ◌++◌, ite,
}
use vae_thrift.Prelude.Int.{ℤ, pos, sub_ℕ}
use vae_thrift.Prelude.Bytes.{Bytes, bytes}
use vae_thrift.Prelude.Eq.{Bytes-discrete}
use vae_thrift.QueryLog.Escape.{value_rep}

-- What the calls pass to `operator<<`. The last one is the literal "\n", of type `char[2]`.
pub data Value : Type 0 where
  string : Bytes → Value
  i32 : ℤ → Value
  bool : Bool → Value
  string_map : List (Bytes × Bytes) → Value
  newline : Value

-- `TypeHelper<T>::Name()`
unfoldable pub typename_of : Value → Bytes
typename_of (string s) = bytes "string"
typename_of (i32 n) = bytes "i32"
typename_of (bool b) = bytes "bool"
typename_of (string_map m) = bytes "map<string,string>"
typename_of newline = bytes "char[2]"

-- `_p_out`, with what was written to it, and `_query_id`.
pub record QueryLog : Type 0 where
  pub out : Option Bytes
  pub query_id : ℕ

pub record Entry : Type 0 where
  pub query_id : ℕ
  pub start_time : ℕ
  pub sslog : Bytes
  pub subdomain : Bytes
  pub method_name : Bytes

-- The constructor of an entry: `_query_id = _log._query_id++`, of type `unsigned`.
unfoldable pub new_entry : QueryLog → Entry × QueryLog
new_entry log = (
  record { query_id = log.query_id; start_time = 0; sslog = []; subdomain = []; method_name = [] },
  record log { query_id = (log.query_id + 1) % 2 ^ 32 },
)

abbrev pub set_subdomain : Bytes → Entry → Entry
set_subdomain s e = record e { subdomain = s }

-- `flush`
unfoldable pub flush : QueryLog → Bytes → QueryLog
flush log text = elim log.out [
  | none ↦ log
  | some written ↦ record log { out = some (written ++ text) }
]

module _ (show : ℤ → Bytes) where
  unfoldable pub map_items : ℕ → List (Bytes × Bytes) → Option Bytes
  map_items fuel [] = some []
  map_items fuel ((k, v) ∷ m) =
      let rest = map_items fuel m in
      elim (value_rep fuel k) [
        | none ↦ none
        | some key ↦ elim (value_rep fuel v) [
          | none ↦ none
          | some val ↦ elim rest [
            | none ↦ none
            | some text ↦ some (key ++ (bytes ":" ++ (val ++ (bytes "," ++ text))))
          ]
        ]
      ]

  -- `TypeHelper<T>::ValueRep(val)`
  unfoldable pub valuerep_of : ℕ → Value → Option Bytes
  valuerep_of fuel (string s) = value_rep fuel s
  valuerep_of fuel (i32 n) = some (show n)
  valuerep_of fuel (bool true) = some (show (pos 1))
  valuerep_of fuel (bool false) = some (show (pos 0))
  valuerep_of fuel (string_map m) = elim (map_items fuel m) [
    | none ↦ none
    | some text ↦ some (bytes "{" ++ (text ++ bytes "}"))
  ]
  valuerep_of fuel newline = value_rep fuel (bytes "\n")

  -- `method_call`, at the time `now`.
  unfoldable pub method_call : QueryLog → Bytes → ℕ → Entry → Entry
  method_call log name now e = elim log.out [
    | none ↦ e
    | some text ↦ record e {
      method_name = name;
      sslog =
          e.sslog
          ++ (bytes "# begin query "
              ++ (show (pos e.query_id)
                  ++ (bytes "\n" ++ (bytes "method_call(" ++ (name ++ bytes "):\n")))));
      start_time = now;
    }
  ]

  -- `operator<<`, at one value and at all that a call passes.
  unfoldable pub log_value : ℕ → QueryLog → Value → Entry → Option Entry
  log_value fuel log v e = elim log.out [
    | none ↦ some e
    | some text ↦ elim (valuerep_of fuel v) [
      | none ↦ none
      | some rep ↦ some (record e {
        sslog = e.sslog ++ (bytes "  " ++ (typename_of v ++ (bytes ":" ++ (rep ++ bytes "\n"))));
      })
    ]
  ]

  unfoldable pub log_values : ℕ → QueryLog → List Value → Entry → Option Entry
  log_values fuel log [] e = some e
  log_values fuel log (v ∷ vs) e = elim (log_value fuel log v e) [
    | none ↦ none
    | some e' ↦ log_values fuel log vs e'
  ]

  -- The destructor, at the time `now`.
  unfoldable pub end_entry : QueryLog → ℕ → Entry → QueryLog
  unfolding flush
  end_entry log now e = flush log (
      e.sslog
      ++ (bytes "# end "
          ++ (e.method_name
              ++ (bytes " query "
                  ++ (show (pos e.query_id)
                      ++ (bytes " after "
                          ++ (show (sub_ℕ now e.start_time)
                              ++ (bytes " microseconds"
                                  ++ (ite (Bytes-discrete e.subdomain []) []
                                        (bytes " for " ++ e.subdomain)
                                      ++ bytes ".\n\n")))))))))
