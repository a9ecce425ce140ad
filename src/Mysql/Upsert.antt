-- ===== src/Mysql/Upsert.antt =====
-- `myout_update_or_insert` of src/out_mysql.c on a table of rows.
use gnuais.Common.{
  ◌<◌, All, All-append, length, length-append, ℕ, suc, Bool, true, false, List, [], ◌∷◌, ◌++◌, map,
  pos, negsuc, ltb, if◌then◌else◌, ◌≡◌, refl, ℤ, inl, inr, Bool-cases, arith, ◌⊎◌,
}
use gnuais.Json.{Libc}
use gnuais.Mysql.{Client, MysqlState, Keeping, is_zero, insert, myout_update_or_insert}

module _ {R : Type 0} (same : R → Bool) where
  -- The rows that an update to the new row changes.
  unfoldable pub changed : List R → ℕ
  changed [] = 0
  changed (r ∷ rs) = if same r then changed rs else suc (changed rs)

-- What the database does, when the queries succeed, with the rows of one ship in one table, which
-- `rows` reads through a connection: the text `upd` sets all of them to `new`, and MySQL counts those
-- that it changed; the text `ins` adds `new`. `same` tells whether a row is `new`.
pub record IsTable {R : Type 0} (C : Client) (same : R → Bool) (new : R) (upd ins : List ℕ)
    (rows : C.Conn → List R) : Type 0 where
  pub update-rows :
      (c : C.Conn) → (C.query c upd).0 ≡ true → rows (C.query c upd).1 ≡ map (λ _. new) (rows c)
  pub update-affected :
      (c : C.Conn)
      → (C.query c upd).0 ≡ true
      → C.affected_rows (C.query c upd).1 ≡ pos (changed same (rows c))
  pub insert-rows :
      (c : C.Conn) → (C.query c ins).0 ≡ true → rows (C.query c ins).1 ≡ rows c ++ new ∷ []

-- The table shows the new row: there is a row, and all rows are the new one.
abbrev pub Shows : {R : Type 0} → (new : R) → List R → Type 0
Shows new rows = (0 < length rows) × All (λ r. r ≡ new) rows

module _ {R : Type 0} (C : Client) (same : R → Bool) (new : R) (upd ins : List ℕ)
    (rows : C.Conn → List R) (t : IsTable C same new upd ins rows) (printer : Libc)
    (k : Keeping) where
  -- What a call has done to the rows that were `before`. With the setting to keep all rows, the new
  -- one is added; with that to keep few, the table shows nothing but the new one. A call that
  -- returns -1 had a query that failed.
  pub data Ends (before : List R) : ℤ × MysqlState C → Type 0 where
    added :
        (m : MysqlState C)
        → is_zero k.keepsmall ≡ true
        → rows m.conn ≡ before ++ new ∷ []
        → Ends before (pos 0, m)
    shown :
        (m : MysqlState C)
        → is_zero k.keepsmall ≡ false
        → Shows new (rows m.conn)
        → Ends before (pos 0, m)
    refused :
        (m : MysqlState C) (c : C.Conn)
        → ((C.query c upd).0 ≡ false) ⊎ ((C.query c ins).0 ≡ false)
        → Ends before (negsuc 0, m)

  All-new : (rs : List R) → All (λ r. r ≡ new) (map (λ _. new) rs)
  All-new [] = tt
  All-new (r ∷ rs) = (refl, All-new rs)

  some_row : (rs : List R) → 0 < changed same rs → 0 < length rs
  unfolding changed
  some_row [] h = h
  some_row (r ∷ rs) h = omega arith

  with_new : (rs : List R) → All (λ r. r ≡ new) rs → Shows new (rs ++ new ∷ [])
  with_new rs p = (
    omega (arith, length-append rs (new ∷ [])),
    All-append (λ r. r ≡ new) rs (new ∷ []) p (refl, tt),
  )

  insert-added :
      (m : MysqlState C)
      → is_zero k.keepsmall ≡ true
      → Ends (rows m.conn) (insert C printer k ins m)
  unfolding insert
  insert-added m all = elim (Bool-cases (C.query m.conn ins).0) [
    | inl ok ↦ rw ok (added _ all (t.insert-rows m.conn ok))
    | inr failed ↦ rw failed (refused _ m.conn (inr failed))
  ]

  insert-shown :
      (before : List R) (m : MysqlState C)
      → is_zero k.keepsmall ≡ false
      → All (λ r. r ≡ new) (rows m.conn)
      → Ends before (insert C printer k ins m)
  unfolding insert
  insert-shown before m small p = elim (Bool-cases (C.query m.conn ins).0) [
    | inl ok ↦ rw ok (shown _ small (rw (t.insert-rows m.conn ok) (with_new (rows m.conn) p)))
    | inr failed ↦ rw failed (refused _ m.conn (inr failed))
  ]

  map_row : (rs : List R) → 0 < length rs → 0 < length (map (λ _. new) rs)
  map_row [] h = h
  map_row (r ∷ rs) h = omega arith

  -- For a database whose successful queries treat the rows as described: a call that returns 0 has
  -- added the new row, or with the setting to keep few rows left no other row than the new one in the
  -- table; and a call that does not returns -1, after a query that failed.
  pub myout_update_or_insert-stored :
      (m : MysqlState C) → Ends (rows m.conn) (myout_update_or_insert C printer k upd ins m)
  unfolding myout_update_or_insert
  myout_update_or_insert-stored m =
      let before = rows m.conn in
      let conn = (C.query m.conn upd).1 in
      let m' : MysqlState C = record m { conn = conn } in
      elim (Bool-cases (is_zero k.keepsmall)) [
        | inl all ↦ rw all (insert-added m all)
        | inr small ↦ elim (Bool-cases (C.query m.conn upd).0) [
          | inr failed ↦ rw (small, failed) (refused _ m.conn (inl failed))
          | inl ok ↦
              let affected = t.update-affected m.conn ok in
              let set = t.update-rows m.conn ok in
              elim (Bool-cases (ltb 0 (changed same before))) [
                | inl changes ↦
                    let row = some_row before (ground (arith, changes)) in
                    rw (small, ok, affected, changes)
                      (shown _ small (rw set (map_row before row, All-new before)))
                | inr none_changed ↦
                    rw (small, ok, affected, none_changed)
                      (insert-shown before m' small (rw set (All-new before)))
              ]
        ]
      ]
