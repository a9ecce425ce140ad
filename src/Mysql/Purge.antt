-- ===== src/Mysql/Purge.antt =====
-- How often src/out_mysql.c deletes old rows: the queries of a sequence of reports, as a client
-- library sees them that keeps their texts.
use gnuais.Common.{
  ℕ, suc, ◌+◌, ◌/◌, ◌%◌, ◌<◌, Bool, true, false, some, none, List, [], ◌∷◌, ℤ, pos, ◌==◌,
  if◌then◌else◌, ◌≡◌, refl, arith, ◌∙◌, zero, ◌++◌, ◌+ℤ◌, codes, ap, sym, append_assoc, append-nil,
  inl, inr, Bool-cases,
}
use gnuais.Protodec.Types.{
  Scaled, over, Row, Call, my, my_nmea, print, cache, update_range, serial_write, ipc_write,
}
use native.Mathlib.Nat.{zero-add}
use gnuais.Json.{Libc}
use gnuais.Mysql.{
  Client, MysqlState, Keeping, is_positive, neg_ℤ, sql, insert, after_error, myout_reconnect,
  myout_connect, myout_delete_from, myout_delete_old, count_insert, myout_update_or_insert,
}
use gnuais.Mysql.Rows.{
  myout_ais_position, myout_ais_basestation, myout_ais_vesseldata, myout_ais_vesseldatab,
  myout_ais_vesselname, myout_nmea, store_row, store_calls,
}

-- A text that begins with 'D', as those of `myout_delete_from` do and no other.
abbrev pub is_delete : List ℕ → Bool
is_delete [] = false
is_delete (c ∷ cs) = c == b'D'

-- The client library `C`, with the texts of its deletions in order.
abbrev pub counting : Client → Client
counting C = record {
  Conn = C.Conn × List (List ℕ);
  init = elim C.init [ none ↦ none | some c ↦ some (c, []) ];
  real_connect = λ p. let (ok, c) = C.real_connect p.0 in (ok, (c, p.1));
  query =
      λ p q. let (ok, c) = C.query p.0 q in (ok, (c, if is_delete q then p.1 ++ q ∷ [] else p.1));
  errno = λ p. C.errno p.0;
  affected_rows = λ p. C.affected_rows p.0;
  close = λ p. (C.close p.0, p.1);
  server_gone_error = C.server_gone_error;
}

-- The reports of positions among the calls of the decoder.
unfoldable pub positions : List Call → ℕ
positions [] = 0
positions (my mmsi (Row.position lat lon heading course sog) ∷ calls) = suc (positions calls)
positions (_ ∷ calls) = positions calls

-- The text that deletes the rows of a table that are older than the limit, cut to its buffer.
abbrev purge : Libc → Keeping → (now : ℤ) (table : List ℕ) → List ℕ
purge printer k now table = sql (
    codes "DELETE FROM "
    ∷ table
    ∷ codes " WHERE time < "
    ∷ printer.print_int (now +ℤ neg_ℤ k.oldlimit)
    ∷ [])

-- The four deletions, `n` times.
unfoldable pub purges : Libc → Keeping → (now : ℤ) (n : ℕ) → List (List ℕ)
purges printer k now zero = []
purges printer k now (suc n) =
    purge printer k now (codes "ais_position")
    ∷ purge printer k now (codes "ais_vesseldata")
    ∷ purge printer k now (codes "ais_basestation")
    ∷ purge printer k now (codes "ais_nmea")
    ∷ purges printer k now n

purges-add :
    (printer : Libc) (k : Keeping) (now : ℤ) (m n : ℕ)
    → purges printer k now (m + n) ≡ purges printer k now m ++ purges printer k now n
unfolding purges
purges-add printer k now zero n =
    let same : 0 + n ≡ n = omega arith in ap (purges printer k now) same
purges-add printer k now (suc m) n =
    let same : suc m + n ≡ suc (m + n) = omega arith in rw (same, purges-add printer k now m n)

module _ (C : Client) (printer : Libc) (k : Keeping) where
  abbrev S : Type 0
  S = MysqlState (counting C)

  -- The deletions so far, and the counter.
  abbrev pub Counts : (deletions : List (List ℕ)) (inserts : ℕ) → S → Type 0
  Counts deletions inserts m = (m.conn.1 ≡ deletions) × (m.inserts ≡ inserts)

  after_error-Counts : (m : S) → Counts m.conn.1 m.inserts (after_error (counting C) m)
  unfolding after_error myout_reconnect myout_connect
  after_error-Counts m = ground arith

  insert-Counts :
      (ins : List ℕ) (m : S)
      → is_delete ins ≡ false
      → Counts m.conn.1 m.inserts (insert (counting C) printer k ins m).1
  unfolding insert after_error myout_reconnect myout_connect
  insert-Counts ins m plain = ground arith

  update_or_insert-Counts :
      (upd ins : List ℕ) (m : S)
      → is_delete upd ≡ false
      → is_delete ins ≡ false
      → Counts m.conn.1 m.inserts (myout_update_or_insert (counting C) printer k upd ins m).1
  unfolding myout_update_or_insert insert after_error myout_reconnect myout_connect
  update_or_insert-Counts upd ins m p q = ground arith

  delete_from-Counts :
      (tid : ℤ) (table : List ℕ) (m : S)
      → Counts
          (m.conn.1 ++ purge printer k tid table ∷ [])
          m.inserts
          (myout_delete_from (counting C) printer k tid table m).1
  unfolding myout_delete_from sql
  delete_from-Counts tid table m = (refl, refl)

  delete_old-Counts :
      (tid : ℤ) (m : S)
      → is_positive k.oldlimit ≡ true
      → Counts
          (m.conn.1 ++ purges printer k tid 1)
          m.inserts
          (myout_delete_old (counting C) printer k tid m)
  unfolding myout_delete_old myout_delete_from sql purges
  delete_old-Counts tid m on = rw on (simp append_assoc refl, refl)

  count_insert-Counts :
      (tid : ℤ) (m : S)
      → is_positive k.oldlimit ≡ true
      → m.inserts < 10
      → Counts
          (m.conn.1 ++ purges printer k tid ((m.inserts + 1) / 10))
          ((m.inserts + 1) % 10)
          (count_insert (counting C) printer k tid m)
  unfolding count_insert
  count_insert-Counts tid m on small =
      let m' : S = record m { inserts = m.inserts + 1 } in
      elim (Bool-cases ((m.inserts + 1) % 10 == 0)) [
        | inl tenth ↦
            let once : (m.inserts + 1) / 10 ≡ 1 = grind (arith, tenth) in
            let fresh : (m.inserts + 1) % 10 ≡ 0 = grind (arith, tenth) in
            rw (tenth, once) ((delete_old-Counts tid m' on).0, sym fresh)
        | inr other ↦
            let none_due : (m.inserts + 1) / 10 ≡ 0 = grind (arith, other) in
            let same : (m.inserts + 1) % 10 ≡ m.inserts + 1 = grind (arith, other) in
            rw (other, none_due, same) (unfold purges in sym (append-nil m.conn.1), refl)
      ]

  position-Counts :
      (tid : ℤ) (mmsi : ℕ) (lat lon hdg course sog : Scaled) (m : S)
      → is_positive k.oldlimit ≡ true
      → m.inserts < 10
      → Counts
          (m.conn.1 ++ purges printer k tid ((m.inserts + 1) / 10))
          ((m.inserts + 1) % 10)
          (myout_ais_position (counting C) printer k tid mmsi lat lon hdg course sog m).1
  unfolding myout_ais_position sql
  position-Counts tid mmsi lat lon hdg course sog m on small =
      let (deletions, inserts) = count_insert-Counts tid m on small in
      let (same_deletions, same_inserts) =
        update_or_insert-Counts _ _ (count_insert (counting C) printer k tid m) refl refl in
      (same_deletions ∙ deletions, same_inserts ∙ inserts)

  nmea-Counts :
      (tid : ℤ) (nmea : List ℕ) (m : S)
      → Counts m.conn.1 m.inserts (myout_nmea (counting C) printer k tid nmea m).1
  unfolding myout_nmea sql after_error myout_reconnect myout_connect
  nmea-Counts tid nmea m = ground arith

  -- What the calls of a list that hold `n` reports of positions have done.
  abbrev pub Counted : (tid : ℤ) (n : ℕ) → S → S → Type 0
  Counted tid n m m' =
      Counts (m.conn.1 ++ purges printer k tid ((m.inserts + n) / 10)) ((m.inserts + n) % 10) m'

  keep-Counted :
      (tid : ℤ) (m m' : S) → m.inserts < 10 → Counts m.conn.1 m.inserts m' → Counted tid 0 m m'
  keep-Counted tid m m' small h =
      let none_due : (m.inserts + 0) / 10 ≡ 0 = omega (arith, small) in
      let same : (m.inserts + 0) % 10 ≡ m.inserts = omega (arith, small) in
      rw (none_due, same) (h.0 ∙ (unfold purges in sym (append-nil m.conn.1)), h.1)

  chain-Counted :
      (tid : ℤ) (a b : ℕ) (m m' m'' : S)
      → Counted tid a m m'
      → Counted tid b m' m''
      → Counted tid (a + b) m m''
  chain-Counted tid a b m m' m'' p q =
      let x = (m.inserts + a) / 10 in
      let y = (m'.inserts + b) / 10 in
      let sum : (m.inserts + (a + b)) / 10 ≡ x + y = omega (arith, p.1) in
      (
        q.0
            ∙ (ap (λ ds. ds ++ purges printer k tid y) p.0
                ∙ (append_assoc m.conn.1 (purges printer k tid x) (purges printer k tid y)
                    ∙ ap (λ ds. m.conn.1 ++ ds)
                        (sym (purges-add printer k tid x y)
                          ∙ ap (purges printer k tid) (sym sum)))),
        q.1 ∙ omega (arith, p.1),
      )

  row-Counted :
      (tid : ℤ) (mmsi : ℕ) (row : Row) (m : S)
      → is_positive k.oldlimit ≡ true
      → m.inserts < 10
      → Counted tid
          (positions (my mmsi row ∷ []))
          m
          (store_row (counting C) printer k tid mmsi row m)
  unfolding positions store_row sql myout_ais_basestation myout_ais_vesseldata myout_ais_vesseldatab
      myout_ais_vesselname
  row-Counted tid mmsi (Row.position lat lon heading course sog) m on small =
      position-Counts tid mmsi lat lon (over (pos heading) 1) course sog m on small
  row-Counted tid mmsi (Row.basestation lat lon) m on small =
      keep-Counted tid m (store_row (counting C) printer k tid mmsi (Row.basestation lat lon) m)
        small (update_or_insert-Counts _ _ m refl refl)
  row-Counted tid mmsi (Row.vesselname name destination) m on small =
      keep-Counted tid m
        (store_row (counting C) printer k tid mmsi (Row.vesselname name destination) m) small
        (update_or_insert-Counts _ _ m refl refl)
  row-Counted tid mmsi (Row.vesseldata name destination draught a b c e) m on small =
      keep-Counted tid m
        (store_row (counting C) printer k tid mmsi (Row.vesseldata name destination draught a b c e)
          m)
        small (update_or_insert-Counts _ _ m refl refl)
  row-Counted tid mmsi (Row.vesseldatab a b c e) m on small =
      keep-Counted tid m (store_row (counting C) printer k tid mmsi (Row.vesseldatab a b c e) m)
        small (update_or_insert-Counts _ _ m refl refl)

  positions-my :
      (mmsi : ℕ) (row : Row) (calls : List Call)
      → positions (my mmsi row ∷ calls) ≡ positions (my mmsi row ∷ []) + positions calls
  unfolding positions
  positions-my mmsi (Row.position lat lon heading course sog) calls = omega arith
  positions-my mmsi (Row.basestation lat lon) calls = omega arith
  positions-my mmsi (Row.vesselname name destination) calls = omega arith
  positions-my mmsi (Row.vesseldata name destination draught a b c e) calls = omega arith
  positions-my mmsi (Row.vesseldatab a b c e) calls = omega arith

  pub store_calls-Counted :
      (tid : ℤ) (calls : List Call) (m : S)
      → is_positive k.oldlimit ≡ true
      → m.inserts < 10
      → Counted tid (positions calls) m (store_calls (counting C) printer k tid calls m)
  unfolding store_calls positions
  store_calls-Counted tid [] m on small = keep-Counted tid m m small (refl, refl)
  store_calls-Counted tid (my mmsi row ∷ calls) m on small =
      let m' : S = store_row (counting C) printer k tid mmsi row m in
      let now = row-Counted tid mmsi row m on small in
      let later = store_calls-Counted tid calls m' on (omega (arith, now.1)) in
      rw (positions-my mmsi row calls) (
        chain-Counted tid (positions (my mmsi row ∷ [])) (positions calls) m m'
          (store_calls (counting C) printer k tid calls m') now later)
  store_calls-Counted tid (my_nmea nmea ∷ calls) m on small =
      let m' : S = (myout_nmea (counting C) printer k tid nmea m).1 in
      let now = keep-Counted tid m m' small (nmea-Counts tid nmea m) in
      let later = store_calls-Counted tid calls m' on (omega (arith, now.1)) in
      rw zero-add at (
        chain-Counted tid 0 (positions calls) m m' (store_calls (counting C) printer k tid calls m')
          now later)
  store_calls-Counted tid (print _ ∷ calls) m on small = store_calls-Counted tid calls m on small
  store_calls-Counted tid (cache _ _ ∷ calls) m on small = store_calls-Counted tid calls m on small
  store_calls-Counted tid (update_range _ _ ∷ calls) m on small =
      store_calls-Counted tid calls m on small
  store_calls-Counted tid (serial_write _ ∷ calls) m on small =
      store_calls-Counted tid calls m on small
  store_calls-Counted tid (ipc_write _ ∷ calls) m on small =
      store_calls-Counted tid calls m on small
