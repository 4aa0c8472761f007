-- ===== src/Mysql/Examples.antt =====
-- A database that is kept as a function, with the table of sessions.
use vae_thrift.Prelude.{◌≢◌, ite, some, List, [], ◌∷◌, ◌++◌, arith}
use vae_thrift.Prelude.Int.{pos}
use vae_thrift.Prelude.Bytes.{Bytes, bytes}
use vae_thrift.Prelude.Eq.{Bytes-discrete}
use vae_thrift.Mysql.{Statement, select_session, delete_session, insert_session, Row, Sql, Database}

abbrev Table : Type 0
Table = Bytes → Bytes → List Bytes

-- The table `db` with `values` under an id and a subdomain.
unfoldable with_rows : Bytes → Bytes → List Bytes → Table → Table
with_rows id sub values db id' sub' =
    ite (Bytes-discrete id id') (ite (Bytes-discrete sub sub') values (db id' sub')) (db id' sub')

unfoldable change : Statement → Sql Table (Unit {0})
change (delete_session id sub) db = (some tt, with_rows id sub [] db)
change (insert_session id sub value seconds) db =
    (some tt, with_rows id sub (db id sub ++ (value ∷ [])) db)
change other db = (some tt, db)

abbrev row_of : Bytes → Row
row_of value = record { get_string = λ column. value; get_int = λ column. pos 0 }

unfoldable rows_of : List Bytes → List Row
rows_of [] = []
rows_of (v ∷ vs) = row_of v ∷ rows_of vs

unfoldable query : Statement → Sql Table (List Row)
query (select_session id sub) db = (some (rows_of (db id sub)), db)
query other db = (some [], db)

abbrev sessions : Database
sessions = record {
  Db = Table;
  prepare = λ s db. (some tt, db);
  execute = change;
  execute_query = query;
}

abbrev blank : Table
blank id sub = []

shop_not_blog : bytes "shop" ≢ bytes "blog"
shop_not_blog = ground arith
