-- ===== src/Witnesses/Locks.antt =====
-- The theorems on the read-write lock at concrete states: a writer holds the lock and a reader and a
-- writer wait, and then the writer has given it back.
use gnuais.Common.{◌+◌, ◌≤◌, ◌<◌, ◌≡◌, refl, true, arith}
use gnuais.Rwlock.{rwl_init, rwl_rdlock, rwl_wrlock, rwl_wrunlock}
use gnuais.Rwlock.Threads.{
  System, Step, Reach, start, later, rdlock, wrlock, wrunlock, reader_at, writer_at, wake, idle,
}
use gnuais.Rwlock.Safety.{in_wait, mutual_exclusion, no_lost_wakeup}

abbrev contended : System
contended = record {
  lock = record { valid = true; r_active = 0; w_active = 1; r_wait = 1; w_wait = 1 };
  waiting_read = 1;
  woken_read = 0;
  cancelled_read = 0;
  reading = 0;
  waiting_write = 1;
  woken_write = 0;
  cancelled_write = 0;
  writing = 1;
  cancellations = 0;
}

contended-Reach : Reach contended
unfolding idle rwl_init rwl_wrlock rwl_rdlock reader_at writer_at
contended-Reach = later (later (later start wrlock) wrlock) rdlock

abbrev given_back : System
given_back = record {
  lock = record { valid = true; r_active = 0; w_active = 0; r_wait = 1; w_wait = 1 };
  waiting_read = 0;
  woken_read = 1;
  cancelled_read = 0;
  reading = 0;
  waiting_write = 1;
  woken_write = 0;
  cancelled_write = 0;
  writing = 0;
  cancellations = 0;
}

given_back-Reach : Reach given_back
unfolding rwl_wrunlock wake
given_back-Reach = later contended-Reach (wrunlock (omega arith))

mutual_exclusion_example : contended.writing ≤ 1 × (0 < contended.writing → contended.reading ≡ 0)
mutual_exclusion_example = mutual_exclusion contended contended-Reach

no_lost_wakeup_example :
    (t : System) × Step given_back t
    × (0 < t.reading + t.writing)
    × (in_wait t + 1 ≡ in_wait given_back)
no_lost_wakeup_example = no_lost_wakeup given_back given_back-Reach refl refl refl (omega arith)
