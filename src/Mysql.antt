-- ===== src/Mysql.antt =====
-- The calls of cpp/mysql_proxy.cpp on the database: the session cache, the long-term cache, the
-- locks and the garbage collection. What the connector does with a statement is the interface
-- `Database`. A call holds its connection from its first line to its end, as in `Pool`.
pub mod Laws
mod Examples
use vae_thrift.Prelude.{
  ℕ, ltb, if◌then◌else◌, Bool, true, false, ◌&&◌, Option, none, some, List, [], ◌∷◌,
}
use vae_thrift.Prelude.Int.{ℤ, pos, negsuc, pos_part}
use vae_thrift.Prelude.Bytes.{Bytes, bytes}
use vae_thrift.Prelude.Eq.{bytes_eq}
use vae_thrift.Prelude.Map.{Map, assign}

-- The statements, by their table and their parameters.
pub data Statement : Type 0 where
  delete_expired_sessions : Statement
  select_session delete_session : (id subdomain : Bytes) → Statement
  insert_session : (id subdomain data' : Bytes) (seconds : ℕ) → Statement
  select_entry delete_entry : (k subdomain : Bytes) → Statement
  renew_entry : (days : ℤ) (k subdomain : Bytes) → Statement
  insert_entry : (k subdomain v : Bytes) (days is_filename : ℤ) → Statement
  delete_entries delete_expired_entries select_filenames : (subdomain : Bytes) → Statement
  insert_lock delete_lock : (subdomain : Bytes) → Statement
  delete_old_locks : Statement

-- A row of a result set, by the names of its columns.
pub record Row : Type 0 where
  pub get_string : Bytes → Bytes
  pub get_int : Bytes → ℤ

-- What may throw an `SQLException`, which is `none`.
abbrev pub Sql : Type 0 → Type 0 → Type 0
Sql Db A = Db → Option A × Db

pub record Database : Type 1 where
  pub Db : Type 0
  pub prepare : Statement → Sql Db (Unit {0})
  pub execute : Statement → Sql Db (Unit {0})
  pub execute_query : Statement → Sql Db (List Row)

infixl 5 ◌>>=◌ ◌>>◌
abbrev pub ◌>>=◌ : {Db A B : Type 0} → Sql Db A → (A → Sql Db B) → Sql Db B
◌>>=◌ m f db = let (r, db') = m db in elim r [ none ↦ (none, db') | some a ↦ f a db' ]

abbrev pub ◌>>◌ : {Db B : Type 0} → Sql Db (Unit {0}) → Sql Db B → Sql Db B
m >> n = m >>= λ _. n

-- `try { … } catch(sql::SQLException &e) { log }`, with what the call then returns.
abbrev pub catching : {Db A : Type 0} → A → Sql Db A → Db → A × Db
catching otherwise m db = let (r, db') = m db in (elim r [ none ↦ otherwise | some a ↦ a ], db')

module _ (d : Database) where
  open d use {Db, prepare, execute, execute_query}

  -- Both statements of a call are prepared before the first is executed.
  abbrev pub one_statement : Statement → Sql Db (Unit {0})
  one_statement s = prepare s >> execute s

  abbrev pub two_statements : Statement → Statement → Sql Db (Unit {0})
  two_statements s t = prepare s >> (prepare t >> (execute s >> execute t))

  unfoldable pub garbage_collect : Db → Unit {0} × Db
  garbage_collect = catching tt (one_statement delete_expired_sessions)

  -- `while (res->next()) out = res->getString(column);`
  unfoldable pub last_string : Bytes → Bytes → List Row → Bytes
  last_string column out [] = out
  last_string column out (row ∷ rows) = last_string column (row.get_string column) rows

  unfoldable pub session_get : Bytes → Bytes → Db → Bytes × Db
  session_get subdomain key db =
      let statement = select_session key subdomain in
      let (r, db') = (prepare statement >> execute_query statement) db in
      (elim r [ none ↦ [] | some rows ↦ last_string (bytes "data") [] rows ], db')

  unfoldable pub session_set : Bytes → Bytes → Bytes → Db → Unit {0} × Db
  session_set subdomain key value =
      catching tt
        (two_statements (delete_session key subdomain) (insert_session key subdomain value 172800))

  unfoldable pub session_delete : Bytes → Bytes → Db → Unit {0} × Db
  session_delete subdomain key = catching tt (one_statement (delete_session key subdomain))

  -- `n > 0` and `n < 10` on `int32_t`.
  abbrev pub is_positive : ℤ → Bool
  is_positive (pos n) = ltb 0 n
  is_positive (negsuc n) = false

  abbrev pub below_ten : ℤ → Bool
  below_ten (pos n) = ltb n 10
  below_ten (negsuc n) = true

  -- The loop of `longTermCacheGet`. An exception leaves it with `out` as it is.
  unfoldable pub renew_rows : ℤ → Statement → Bytes → List Row → Db → Bytes × Db
  renew_rows renew_expiry renew out [] db = (out, db)
  renew_rows renew_expiry renew out (row ∷ rows) db =
      let v = row.get_string (bytes "v") in
      let rest = renew_rows renew_expiry renew v rows in
      if is_positive renew_expiry && below_ten (row.get_int (bytes "remaining_days"))
      then (let (r, db') = execute renew db in elim r [ none ↦ (v, db') | some _ ↦ rest db' ])
      else rest db

  unfoldable pub long_term_get : Bytes → Bytes → ℤ → Db → Bytes × Db
  long_term_get subdomain key renew_expiry db =
      let select = select_entry key subdomain in
      let renew = renew_entry renew_expiry key subdomain in
      let (r, db') = (prepare select >> (prepare renew >> execute_query select)) db in
      elim r [ none ↦ ([], db') | some rows ↦ renew_rows renew_expiry renew [] rows db' ]

  unfoldable pub long_term_set : Bytes → Bytes → Bytes → ℤ → ℤ → Db → Unit {0} × Db
  long_term_set subdomain key value expire_interval is_filename = catching tt (
      two_statements (delete_entry key subdomain)
        (insert_entry key subdomain value expire_interval is_filename))

  unfoldable pub long_term_empty : Bytes → Db → Unit {0} × Db
  long_term_empty subdomain = catching tt (one_statement (delete_entries subdomain))

  unfoldable pub long_term_delete : Bytes → Bytes → Db → Unit {0} × Db
  long_term_delete subdomain key = catching tt (one_statement (delete_entry key subdomain))

  -- `while (res->next()) _return.data[res->getString("k")] = res->getString("v");`
  unfoldable pub filenames : Map Bytes Bytes → List Row → Map Bytes Bytes
  filenames m [] = m
  filenames m (row ∷ rows) =
      filenames (assign (row.get_string (bytes "k")) (row.get_string (bytes "v")) m) rows

  unfoldable pub sweeper_info : Bytes → Db → Map Bytes Bytes × Db
  sweeper_info subdomain db =
      let select = select_filenames subdomain in
      let sweep = delete_expired_entries subdomain in
      let (r, db') =
        (prepare select >> (prepare sweep >> (execute sweep >> execute_query select))) db in
      (elim r [ none ↦ [] | some rows ↦ filenames [] rows ], db')

  -- `lock` answers 1 if it got the lock; else old locks are removed, for the next call.
  unfoldable pub lock : Bytes → Db → ℤ × Db
  lock subdomain db =
      let (r, db') = one_statement (insert_lock subdomain) db in
      elim r [
        | some _ ↦ (pos 1, db')
        | none ↦ let (_, db'') = one_statement delete_old_locks db' in (pos 0, db'')
      ]

  unfoldable pub unlock : Bytes → Db → ℤ × Db
  unlock subdomain db =
      let (r, db') = one_statement (delete_lock subdomain) db in
      (elim r [ none ↦ pos 0 | some _ ↦ pos 1 ], db')
