-- ===== src/Mysql/Rows.antt =====
-- The reports that src/out_mysql.c stores: the texts of their queries, and which function stores a
-- row that the decoder of src/protodec.c hands out.
use gnuais.Common.{ℕ, List, [], ◌∷◌, ℤ, pos, negsuc, if◌then◌else◌, codes}
use gnuais.Protodec.Types.{Scaled, over, Row, Call, my, my_nmea}
use gnuais.Json.{Libc}
use gnuais.Mysql.{
  Client, MysqlState, Keeping, sql, after_error, myout_update_or_insert, count_insert,
}

module _ (C : Client) (printer : Libc) (k : Keeping) where
  abbrev d : ℕ → List ℕ
  d n = printer.print_int (pos n)

  abbrev ld : ℤ → List ℕ
  ld tid = printer.print_int tid

  abbrev f : ℕ → Scaled → List ℕ
  f decimals x = printer.print_float decimals x

  unfoldable pub myout_ais_position :
      (tid : ℤ) (mmsi : ℕ) (lat lon hdg course sog : Scaled) → MysqlState C → ℤ × MysqlState C
  myout_ais_position tid mmsi lat lon hdg course sog m =
      let ins = sql (
        codes
          "INSERT INTO ais_position (time,mmsi,latitude,longitude,heading,course,speed) VALUES ("
        ∷ ld tid
        ∷ codes ","
        ∷ d mmsi
        ∷ codes ","
        ∷ f 7 lat
        ∷ codes ","
        ∷ f 7 lon
        ∷ codes ","
        ∷ f 5 hdg
        ∷ codes ","
        ∷ f 6 course
        ∷ codes ","
        ∷ f 6 sog
        ∷ codes ")"
        ∷ []) in
      let upd = sql (
        codes "UPDATE ais_position SET time="
        ∷ ld tid
        ∷ codes ", latitude="
        ∷ f 7 lat
        ∷ codes ", longitude="
        ∷ f 7 lon
        ∷ codes ", heading="
        ∷ f 6 hdg
        ∷ codes ", course="
        ∷ f 5 course
        ∷ codes ", speed="
        ∷ f 6 sog
        ∷ codes " WHERE mmsi="
        ∷ d mmsi
        ∷ []) in
      myout_update_or_insert C printer k upd ins (count_insert C printer k tid m)

  unfoldable pub myout_ais_basestation :
      (tid : ℤ) (mmsi : ℕ) (lat lon : Scaled) → MysqlState C → ℤ × MysqlState C
  myout_ais_basestation tid mmsi lat lon m =
      let ins = sql (
        codes "INSERT INTO ais_basestation (time,mmsi,latitude,longitude) VALUES ("
        ∷ ld tid
        ∷ codes ","
        ∷ d mmsi
        ∷ codes ","
        ∷ f 7 lat
        ∷ codes ","
        ∷ f 7 lon
        ∷ codes ")"
        ∷ []) in
      let upd = sql (
        codes "UPDATE ais_basestation SET time="
        ∷ ld tid
        ∷ codes ", latitude="
        ∷ f 7 lat
        ∷ codes ", longitude="
        ∷ f 7 lon
        ∷ codes " WHERE mmsi="
        ∷ d mmsi
        ∷ []) in
      myout_update_or_insert C printer k upd ins m

  unfoldable pub myout_ais_vesseldata :
      (tid : ℤ) (mmsi : ℕ) (name destination : List ℕ) (draught : Scaled) (a b c e : ℕ)
      → MysqlState C
      → ℤ × MysqlState C
  myout_ais_vesseldata tid mmsi name destination draught a b c e m =
      let ins = sql (
        codes "INSERT INTO ais_vesseldata (time,mmsi,name,destination,draught,A,B,C,D) VALUES ("
        ∷ ld tid
        ∷ codes ","
        ∷ d mmsi
        ∷ codes ",\""
        ∷ name
        ∷ codes "\",\""
        ∷ destination
        ∷ codes "\","
        ∷ f 6 draught
        ∷ codes ","
        ∷ d a
        ∷ codes ","
        ∷ d b
        ∷ codes ","
        ∷ d c
        ∷ codes ","
        ∷ d e
        ∷ codes ")"
        ∷ []) in
      let upd = sql (
        codes "UPDATE ais_vesseldata SET time="
        ∷ ld tid
        ∷ codes ", name=\""
        ∷ name
        ∷ codes "\", destination=\""
        ∷ destination
        ∷ codes "\", A="
        ∷ d a
        ∷ codes ", B="
        ∷ d b
        ∷ codes ", C="
        ∷ d c
        ∷ codes ", D="
        ∷ d e
        ∷ codes ", draught="
        ∷ f 6 draught
        ∷ codes " WHERE mmsi="
        ∷ d mmsi
        ∷ []) in
      myout_update_or_insert C printer k upd ins m

  unfoldable pub myout_ais_vesseldatab :
      (tid : ℤ) (mmsi a b c e : ℕ) → MysqlState C → ℤ × MysqlState C
  myout_ais_vesseldatab tid mmsi a b c e m =
      let ins = sql (
        codes "INSERT INTO ais_vesseldata (time,mmsi,A,B,C,D) VALUES ("
        ∷ ld tid
        ∷ codes ","
        ∷ d mmsi
        ∷ codes ","
        ∷ d a
        ∷ codes ","
        ∷ d b
        ∷ codes ","
        ∷ d c
        ∷ codes ","
        ∷ d e
        ∷ codes ")"
        ∷ []) in
      let upd = sql (
        codes "UPDATE ais_vesseldata SET time="
        ∷ ld tid
        ∷ codes ", A="
        ∷ d a
        ∷ codes ", B="
        ∷ d b
        ∷ codes ", C="
        ∷ d c
        ∷ codes ", D="
        ∷ d e
        ∷ codes " WHERE mmsi="
        ∷ d mmsi
        ∷ []) in
      myout_update_or_insert C printer k upd ins m

  unfoldable pub myout_ais_vesselname :
      (tid : ℤ) (mmsi : ℕ) (name destination : List ℕ) → MysqlState C → ℤ × MysqlState C
  myout_ais_vesselname tid mmsi name destination m =
      let ins = sql (
        codes "INSERT INTO ais_vesseldata (time,mmsi,name,destination) VALUES ("
        ∷ ld tid
        ∷ codes ","
        ∷ d mmsi
        ∷ codes ",\""
        ∷ name
        ∷ codes "\",\""
        ∷ destination
        ∷ codes "\")"
        ∷ []) in
      let upd = sql (
        codes "UPDATE ais_vesseldata SET time="
        ∷ ld tid
        ∷ codes ", name=\""
        ∷ name
        ∷ codes "\", destination=\""
        ∷ destination
        ∷ codes "\" WHERE mmsi="
        ∷ d mmsi
        ∷ []) in
      myout_update_or_insert C printer k upd ins m

  unfoldable pub myout_nmea : (tid : ℤ) (nmea : List ℕ) → MysqlState C → ℤ × MysqlState C
  myout_nmea tid nmea m =
      let q = sql (
        codes "INSERT INTO ais_nmea (time, message) VALUES ("
        ∷ ld tid
        ∷ codes ",\"!"
        ∷ nmea
        ∷ codes "\")"
        ∷ []) in
      let (ok, conn) = C.query m.conn q in
      let m' : MysqlState C = record m { conn = conn } in
      if ok then (pos 0, m') else (negsuc 0, after_error C m')

  -- The calls of the decoder, which does not look at their results.
  unfoldable pub store_row : (tid : ℤ) (mmsi : ℕ) → Row → MysqlState C → MysqlState C
  store_row tid mmsi (Row.position lat lon heading course sog) m =
      (myout_ais_position tid mmsi lat lon (over (pos heading) 1) course sog m).1
  store_row tid mmsi (Row.basestation lat lon) m = (myout_ais_basestation tid mmsi lat lon m).1
  store_row tid mmsi (Row.vesselname name destination) m =
      (myout_ais_vesselname tid mmsi name destination m).1
  store_row tid mmsi (Row.vesseldata name destination draught a b c e) m =
      (myout_ais_vesseldata tid mmsi name destination draught a b c e m).1
  store_row tid mmsi (Row.vesseldatab a b c e) m = (myout_ais_vesseldatab tid mmsi a b c e m).1

  unfoldable pub store_calls : (tid : ℤ) → List Call → MysqlState C → MysqlState C
  store_calls tid [] m = m
  store_calls tid (my mmsi row ∷ calls) m = store_calls tid calls (store_row tid mmsi row m)
  store_calls tid (my_nmea nmea ∷ calls) m = store_calls tid calls (myout_nmea tid nmea m).1
  store_calls tid (_ ∷ calls) m = store_calls tid calls m
