-- ===== src/Rwlock/Safety.antt =====
-- The promises of the lock of src/rwlock.c to threads that use it in any order.
use gnuais.Common.{ℕ, ◌+◌, ◌≤◌, ◌<◌, ◌≡◌, ◌↔◌, inl, inr, Bool-cases, ltb, arith}
use gnuais.Rwlock.{
  success, reader_blocked, writer_blocked, rwl_destroy, rwl_rdlock_woken, rwl_wrlock_woken,
}
use gnuais.Rwlock.Threads.{System, Step, Reach, reader_at, writer_at, rdlock_woken, wrlock_woken}
use gnuais.Rwlock.Invariant.{IsConsistent, Reach-IsConsistent}

-- In every state that threads reach, whatever the order of their steps: at most one thread holds the
-- lock for writing, and while one does nobody holds it for reading.
pub mutual_exclusion : (s : System) → Reach s → s.writing ≤ 1 × (0 < s.writing → s.reading ≡ 0)
mutual_exclusion s r = let c = Reach-IsConsistent r in (c.one, c.apart)

-- The threads in a call that has waited.
abbrev pub in_wait : System → ℕ
in_wait s = s.waiting_read + s.woken_read + s.waiting_write + s.woken_write

reader_enters :
    (s : System)
    → IsConsistent s
    → s.writing ≡ 0
    → 0 < s.woken_read
    → (t : System) × Step s t × (0 < t.reading + t.writing) × (in_wait t + 1 ≡ in_wait s)
unfolding rwl_rdlock_woken reader_at reader_blocked
reader_enters s c free h = (_, rdlock_woken h, ground arith, ground arith)

writer_enters :
    (s : System)
    → IsConsistent s
    → s.reading ≡ 0
    → s.writing ≡ 0
    → 0 < s.woken_write
    → (t : System) × Step s t × (0 < t.reading + t.writing) × (in_wait t + 1 ≡ in_wait s)
unfolding rwl_wrlock_woken writer_at writer_blocked
writer_enters s c quiet free h = (_, wrlock_woken h, ground arith, ground arith)

-- As long as no thread has been cancelled, no wakeup is lost: in every state that threads reach in which nobody holds the lock, and some
-- thread is in a call that has waited for it, there is a step in which one of these threads leaves
-- its wait and holds the lock.
pub no_lost_wakeup :
    (s : System)
    → Reach s
    → s.cancellations ≡ 0
    → s.reading ≡ 0
    → s.writing ≡ 0
    → 0 < in_wait s
    → (t : System) × Step s t × (0 < t.reading + t.writing) × (in_wait t + 1 ≡ in_wait s)
no_lost_wakeup s r whole quiet free some_wait =
    let c = Reach-IsConsistent r in
    elim (Bool-cases (ltb 0 s.woken_read)) [
      | inl e ↦ reader_enters s c free (grind arith)
      | inr e ↦ writer_enters s c quiet free (grind arith)
    ]

-- In every state that threads reach, `rwl_destroy` succeeds exactly if no thread holds the lock, waits
-- for it or is on its way out of the wait.
pub rwl_destroy-success :
    (s : System)
    → Reach s
    → ((rwl_destroy s.lock).1 ≡ success) ↔ (
        s.reading + s.writing + s.waiting_read + s.woken_read + s.cancelled_read + s.waiting_write
          + s.woken_write + s.cancelled_write
        ≡ 0)
unfolding rwl_destroy
rwl_destroy-success s r = let c = Reach-IsConsistent r in ground arith
