-- ===== src/Mysql.antt =====
-- src/out_mysql.c: the rows that go to a MySQL database. The client library and the printing of the C
-- library are parameters; the log messages are left out.
pub mod Rows
pub mod Upsert
pub mod Purge
use gnuais.Common.{
  ℕ, zero, suc, ◌+◌, ◌-◌, ◌%◌, Bool, true, false, not, ◌&&◌, Option, none, some, List, [], ◌∷◌,
  ◌++◌, ℤ, pos, negsuc, ◌+ℤ◌, ltb, ◌==◌, if◌then◌else◌, take, codes,
}
use gnuais.Protodec.Types.{Scaled, over, Row, Call, my, my_nmea}
use gnuais.Json.{Libc}

-- The client library: `mysql_init` on `my->conn`, `mysql_real_connect` with the settings of the
-- host, the user and the database, and `mysql_query`, these two with whether they succeed;
-- `mysql_errno`, `mysql_affected_rows`, `mysql_close`, and the number CR_SERVER_GONE_ERROR.
pub record Client : Type 1 where
  pub Conn : Type 0
  pub init : Option Conn
  pub real_connect : Conn → Bool × Conn
  pub query : Conn → List ℕ → Bool × Conn
  pub errno : Conn → ℕ
  pub affected_rows : Conn → ℤ
  pub close : Conn → Conn
  pub server_gone_error : ℕ

-- struct mysql_state_t
pub record MysqlState (C : Client) : Type 0 where
  pub conn : C.Conn
  pub connected : ℕ
  pub inserts : ℕ

-- The settings that the functions read.
pub record Keeping : Type 0 where
  pub keepsmall : ℤ
  pub oldlimit : ℤ

abbrev is_zero : ℤ → Bool
is_zero (pos n) = n == 0
is_zero (negsuc n) = false

abbrev pub is_positive : ℤ → Bool
is_positive (pos n) = ltb 0 n
is_positive (negsuc n) = false

abbrev neg_ℤ : ℤ → ℤ
neg_ℤ (pos zero) = pos 0
neg_ℤ (pos (suc n)) = negsuc n
neg_ℤ (negsuc n) = pos (n + 1)

abbrev pub max_sql_len : ℕ
max_sql_len = 2000

-- The text that `snprintf(q, MAX_SQL_LEN, ...)` leaves of its pieces.
unfoldable pub sql : List (List ℕ) → List ℕ
sql pieces = take (max_sql_len - 1) (joined pieces)
  where
    joined : List (List ℕ) → List ℕ
    joined [] = []
    joined (p ∷ ps) = p ++ joined ps

module _ (C : Client) where
  unfoldable pub myout_connect : MysqlState C → Bool × MysqlState C
  myout_connect m =
      let (ok, conn) = C.real_connect m.conn in
      (ok, record m { conn = conn; connected = if ok then 1 else 0 })

  unfoldable pub myout_init : Option (MysqlState C)
  unfolding myout_connect
  myout_init = elim C.init [
    | none ↦ none
    | some conn ↦
        let (ok, m) = myout_connect (record { conn = conn; connected = 0; inserts = 0 }) in
        if ok then some (record m { connected = 1 }) else none
  ]

  unfoldable pub myout_reconnect : MysqlState C → Bool × MysqlState C
  unfolding myout_connect
  myout_reconnect m = myout_connect (record m { conn = C.close m.conn; connected = 0 })

  -- What follows a query that failed: a new connection if the server is gone.
  unfoldable pub after_error : MysqlState C → MysqlState C
  unfolding myout_reconnect
  after_error m =
      let again = (myout_reconnect m).1 in
      if C.errno m.conn == C.server_gone_error then again else m

  module _ (printer : Libc) (k : Keeping) where
    unfoldable pub myout_delete_from : (now : ℤ) (table : List ℕ) → MysqlState C → ℤ × MysqlState C
    myout_delete_from now table m =
        let text = sql (
          codes "DELETE FROM "
          ∷ table
          ∷ codes " WHERE time < "
          ∷ printer.print_int (now +ℤ neg_ℤ k.oldlimit)
          ∷ []) in
        let (ok, conn) = C.query m.conn text in
        (if ok then C.affected_rows conn else pos 0, record m { conn = conn })

    unfoldable pub myout_delete_old : (now : ℤ) → MysqlState C → MysqlState C
    unfolding myout_delete_from
    myout_delete_old now m =
        let a = (myout_delete_from now (codes "ais_position") m).1 in
        let b = (myout_delete_from now (codes "ais_vesseldata") a).1 in
        let c = (myout_delete_from now (codes "ais_basestation") b).1 in
        let d = (myout_delete_from now (codes "ais_nmea") c).1 in
        if is_positive k.oldlimit then d else m

    -- The insertion, and its result.
    unfoldable pub insert : (ins : List ℕ) → MysqlState C → ℤ × MysqlState C
    unfolding after_error
    insert ins m =
        let (ok, conn) = C.query m.conn ins in
        let m' : MysqlState C = record m { conn = conn } in
        if ok then (pos 0, m') else (negsuc 0, after_error m')

    unfoldable pub myout_update_or_insert : (upd ins : List ℕ) → MysqlState C → ℤ × MysqlState C
    unfolding after_error insert
    myout_update_or_insert upd ins m =
        let (ok, conn) = C.query m.conn upd in
        let m' : MysqlState C = record m { conn = conn } in
        let updated = if is_positive (C.affected_rows conn) then (pos 0, m') else insert ins m' in
        if is_zero k.keepsmall
        then insert ins m
        else if ok
        then updated
        else (negsuc 0, after_error m')

    -- `my->inserts`, and the deletion of old rows at every tenth report.
    unfoldable pub count_insert : (tid : ℤ) → MysqlState C → MysqlState C
    unfolding myout_delete_old
    count_insert tid m =
        let m' : MysqlState C = record m { inserts = m.inserts + 1 } in
        let cleaned : MysqlState C = record (myout_delete_old tid m') { inserts = 0 } in
        if m'.inserts % 10 == 0 then cleaned else m'
