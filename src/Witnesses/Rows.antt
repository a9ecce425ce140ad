-- ===== src/Witnesses/Rows.antt =====
-- The theorems on the database at a small one, whose rows for one ship are numbers.
use gnuais.Common.{
  ℕ, suc, ◌≡◌, refl, ap, Bool, true, none, some, List, [], ◌∷◌, ◌++◌, map, ℤ, pos, ◌==◌,
  if◌then◌else◌, codes, arith,
}
use gnuais.Protodec.Types.{over, Row, Call, my}
use gnuais.Json.{Libc}
use gnuais.Mysql.{Client, MysqlState, Keeping, myout_update_or_insert}
use gnuais.Mysql.Rows.{store_calls}
use gnuais.Mysql.Upsert.{changed, IsTable, Ends, myout_update_or_insert-stored}
use gnuais.Mysql.Purge.{counting, Counted, positions, store_calls-Counted}

abbrev printer : Libc
printer = record {
  print_int = λ n. b'0' ∷ [];
  print_float = λ n x. b'0' ∷ [];
  print_padded = λ w n. b'0' ∷ [];
  gmtime = λ t. none;
}

abbrev same : ℕ → Bool
same r = r == 1

abbrev differing : List ℕ → ℕ
differing [] = 0
differing (r ∷ rs) = if same r then differing rs else suc (differing rs)

-- A text that begins with 'U' sets the rows to 1, any other adds a row.
abbrev small : Client
small = record {
  Conn = List ℕ × ℤ;
  init = some ([], pos 0);
  real_connect = λ c. (true, c);
  query = λ c q. (
    true,
    (elim q [
      | [] ↦ c
      | letter ∷ _ ↦
          if letter == b'U' then (map (λ _. 1) c.0, pos (differing c.0)) else (c.0 ++ 1 ∷ [], pos 1)
    ]),
  );
  errno = λ c. 0;
  affected_rows = λ c. c.1;
  close = λ c. c;
  server_gone_error = 2006;
}

abbrev rows : List ℕ × ℤ → List ℕ
rows c = c.0

differing-changed : (rs : List ℕ) → differing rs ≡ changed same rs
unfolding changed
differing-changed [] = refl
differing-changed (r ∷ rs) = ground (arith, differing-changed rs)

small-IsTable : IsTable small same 1 (codes "U") (codes "I") rows
small-IsTable = record {
  update-rows = λ c e. refl;
  update-affected = λ c e. ap pos (differing-changed c.0);
  insert-rows = λ c e. refl;
}

abbrev keeping : Keeping
keeping = record { keepsmall = pos 1; oldlimit = pos 3600 }

abbrev one_old : MysqlState small
one_old = record { conn = (5 ∷ [], pos 0); connected = 1; inserts = 0 }

myout_update_or_insert-stored_example :
    Ends small same 1
      (codes "U")
      (codes "I")
      rows
      small-IsTable
      printer
      keeping
      (5 ∷ [])
      (myout_update_or_insert small printer keeping (codes "U") (codes "I") one_old)
myout_update_or_insert-stored_example =
    myout_update_or_insert-stored small same 1 (codes "U") (codes "I") rows small-IsTable printer
      keeping one_old

abbrev nine : MysqlState (counting small)
nine = record { conn = (([], pos 0), []); connected = 1; inserts = 9 }

abbrev calls : List Call
calls =
    my 7 (Row.position (over (pos 1) 1) (over (pos 1) 1) 0 (over (pos 1) 1) (over (pos 1) 1))
    ∷ my 7 (Row.basestation (over (pos 1) 1) (over (pos 1) 1))
    ∷ []

store_calls-Counted_example :
    Counted small printer keeping
      (pos 0)
      (positions calls)
      nine
      (store_calls (counting small) printer keeping (pos 0) calls nine)
store_calls-Counted_example =
    store_calls-Counted small printer keeping (pos 0) calls nine refl (omega arith)
