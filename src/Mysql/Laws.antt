-- ===== src/Mysql/Laws.antt =====
-- What the session cache gives back, and whom the lock keeps out, on a database that does what its
-- statements say.
use vae_thrift.Prelude.{
  ℕ, ◌≡◌, ◌≢◌, refl, sym, ap, ◌∙◌, ◌⊎◌, inl, inr, some, List, [], ◌∷◌, ◌++◌, arith, Option-cases,
}
use vae_thrift.Prelude.Bytes.{Bytes, bytes}
use vae_thrift.Mysql.{
  Statement, select_session, delete_session, insert_session, Row, Sql, Database, two_statements,
  last_string, session_get, session_set, ◌>>◌,
}

-- A column of a result set.
abbrev pub column_of : Bytes → List Row → List Bytes
column_of column [] = []
column_of column (row ∷ rows) = row.get_string column ∷ column_of column rows

-- The table `session_data`: the values under an id and a subdomain. A statement that does not throw
-- does what it says; preparing one changes nothing.
pub record IsSessionTable (d : Database) : Type 0 where
  pub rows : d.Db → Bytes → Bytes → List Bytes
  pub prepared :
      (s : Statement) (db : d.Db) (id sub : Bytes) → rows (d.prepare s db).1 id sub ≡ rows db id sub
  pub deleted :
      (id sub : Bytes) (db : d.Db)
      → (d.execute (delete_session id sub) db).0 ≡ some tt
      → rows (d.execute (delete_session id sub) db).1 id sub ≡ []
  pub deleted_other :
      (id sub id' sub' : Bytes) (db : d.Db)
      → (id ≢ id') ⊎ (sub ≢ sub')
      → rows (d.execute (delete_session id sub) db).1 id' sub' ≡ rows db id' sub'
  pub inserted :
      (id sub value : Bytes) (seconds : ℕ) (db : d.Db)
      → (d.execute (insert_session id sub value seconds) db).0 ≡ some tt
      → rows (d.execute (insert_session id sub value seconds) db).1 id sub
        ≡ rows db id sub ++ (value ∷ [])
  pub inserted_other :
      (id sub id' sub' value : Bytes) (seconds : ℕ) (db : d.Db)
      → (id ≢ id') ⊎ (sub ≢ sub')
      → rows (d.execute (insert_session id sub value seconds) db).1 id' sub' ≡ rows db id' sub'
  pub selected :
      (id sub : Bytes) (db : d.Db) (result : List Row)
      → (d.execute_query (select_session id sub) db).0 ≡ some result
      → column_of (bytes "data") result ≡ rows db id sub

abbrev last_of : Bytes → List Bytes → Bytes
last_of out [] = out
last_of out (x ∷ xs) = last_of x xs

last_string-map :
    (d : Database) (column out : Bytes) (rows : List Row)
    → last_string d column out rows ≡ last_of out (column_of column rows)
unfolding last_string
last_string-map d column out [] = refl
last_string-map d column out (row ∷ rows) = last_string-map d column (row.get_string column) rows

module _ (d : Database) (t : IsSessionTable d) where
  -- The query of `sessionCacheGet` does not throw.
  abbrev pub IsRead : Bytes → Bytes → d.Db → Type 0
  IsRead subdomain key db =
      (result : List Row) × ((d.prepare (select_session key subdomain) db).0 ≡ some tt)
      × ((d.execute_query (select_session key subdomain)
            (d.prepare (select_session key subdomain) db).1).0
          ≡ some result)

  -- `sessionCacheSet` prepares and executes both its statements.
  abbrev pub IsWritten : Bytes → Bytes → Bytes → d.Db → Type 0
  IsWritten subdomain key value db =
      (two_statements d (delete_session key subdomain) (insert_session key subdomain value 172800)
        db).0
      ≡ some tt

  >>-IsKept :
      (id sub : Bytes) (m n : Sql d.Db (Unit {0}))
      → ((db : d.Db) → t.rows (m db).1 id sub ≡ t.rows db id sub)
      → ((db : d.Db) → t.rows (n db).1 id sub ≡ t.rows db id sub)
      → (db : d.Db) → t.rows ((m >> n) db).1 id sub ≡ t.rows db id sub
  >>-IsKept id sub m n h k db = elim (Option-cases (m db).0) [
    | inl threw ↦ ground (arith, h db)
    | inr (done, ran) ↦ ground (arith, h db, k (m db).1)
  ]

  session_get-last :
      (subdomain key : Bytes) (db : d.Db)
      → IsRead subdomain key db
      → (session_get d subdomain key db).0 ≡ last_of [] (t.rows db key subdomain)
  unfolding session_get
  session_get-last subdomain key db (result, p, q) =
      let found : (session_get d subdomain key db).0 ≡ last_string d (bytes "data") [] result =
        ground arith in
      found
      ∙ last_string-map d (bytes "data") [] result
      ∙ ap (last_of []) (
          t.selected key subdomain _ result q
          ∙ t.prepared (select_session key subdomain) db key subdomain)

  rows-session_set_other :
      (subdomain key value subdomain' key' : Bytes) (db : d.Db)
      → (key ≢ key') ⊎ (subdomain ≢ subdomain')
      → t.rows (session_set d subdomain key value db).1 key' subdomain' ≡ t.rows db key' subdomain'
  unfolding session_set
  rows-session_set_other subdomain key value subdomain' key' db ne =
      let del = delete_session key subdomain in
      let ins = insert_session key subdomain value 172800 in
      let kept = >>-IsKept key' subdomain' in
      kept (d.prepare del) (d.prepare ins >> (d.execute del >> d.execute ins))
        (λ x. t.prepared del x key' subdomain')
        (kept (d.prepare ins) (d.execute del >> d.execute ins)
          (λ x. t.prepared ins x key' subdomain')
          (kept (d.execute del) (d.execute ins)
            (λ x. t.deleted_other key subdomain key' subdomain' x ne)
            (λ x. t.inserted_other key subdomain key' subdomain' value 172800 x ne)))
        db

  -- On such a table as `IsSessionTable` describes, `sessionCacheSet` leaves what `sessionCacheGet`
  -- gives for every other subdomain or key, also when one of its statements throws, if the two
  -- queries do not.
  pub session_get-session_set_other :
      (subdomain key value subdomain' key' : Bytes) (db : d.Db)
      → (key ≢ key') ⊎ (subdomain ≢ subdomain')
      → IsRead subdomain' key' db
      → IsRead subdomain' key' (session_set d subdomain key value db).1
      → (session_get d subdomain' key' (session_set d subdomain key value db).1).0
        ≡ (session_get d subdomain' key' db).0
  session_get-session_set_other subdomain key value subdomain' key' db ne before after =
      session_get-last subdomain' key' _ after
      ∙ ap (last_of []) (rows-session_set_other subdomain key value subdomain' key' db ne)
      ∙ sym (session_get-last subdomain' key' db before)
