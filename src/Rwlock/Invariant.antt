-- ===== src/Rwlock/Invariant.antt =====
-- What holds of the lock of src/rwlock.c and its threads in every state that they reach: readers and
-- a writer exclude each other, and a free lock with threads that wait is on its way to one.
use gnuais.Common.{◌+◌, ◌-◌, ◌≤◌, ◌<◌, ◌≡◌, true, arith}
use gnuais.Rwlock.{
  returns, reader_blocked, writer_blocked, rwl_init, rwl_rdlock, rwl_rdlock_woken, rwl_readcleanup,
  rwl_tryrdlock, rwl_rdunlock, rwl_wrlock, rwl_wrlock_woken, rwl_writecleanup, rwl_trywrlock,
  rwl_wrunlock,
}
use gnuais.Rwlock.Threads.{
  System, reader_at, writer_at, wake, Step, Reach, idle, rdlock, rdlock_woken, tryrdlock, rdunlock,
  wrlock, wrlock_woken, trywrlock, wrunlock, spurious_read, spurious_write, cancel_read,
  cancel_woken_read, cancel_woken_write, cleanup_read, cleanup_write, cancel_write, start, later,
}

-- The counters count the threads; one thread writes at most, and nobody reads meanwhile. Readers
-- wait for a writer only, and as long as no thread has been cancelled, a writer waits for a thread that holds the lock or is
-- woken.
pub record IsConsistent (s : System) : Type 0 where
  pub valid : s.lock.valid ≡ true
  pub readers : s.lock.r_active ≡ s.reading
  pub writers : s.lock.w_active ≡ s.writing
  pub r_waits : s.lock.r_wait ≡ s.waiting_read + s.woken_read + s.cancelled_read
  pub w_waits : s.lock.w_wait ≡ s.waiting_write + s.woken_write + s.cancelled_write
  pub one : s.writing ≤ 1
  pub apart : 0 < s.writing → s.reading ≡ 0
  pub stalled : 0 < s.waiting_read → 0 < s.writing
  pub nobody_left : s.cancellations ≡ 0 → s.cancelled_read + s.cancelled_write ≡ 0
  pub awake :
      s.cancellations ≡ 0
      → 0 < s.waiting_write
      → 0 < s.reading + s.writing + s.woken_read + s.woken_write

rdlock-IsConsistent :
    (s : System)
    → IsConsistent s
    → IsConsistent (let (lock, o) = rwl_rdlock s.lock in reader_at o (record s { lock = lock }))
unfolding rwl_rdlock reader_at reader_blocked
rdlock-IsConsistent s c = ground arith

rdlock_woken-IsConsistent :
    (s : System)
    → 0 < s.woken_read
    → IsConsistent s
    → IsConsistent (
        let (lock, o) = rwl_rdlock_woken s.lock in
        reader_at o (record s { lock = lock; woken_read = s.woken_read - 1 }))
unfolding rwl_rdlock_woken reader_at reader_blocked
rdlock_woken-IsConsistent s h c = ground arith

tryrdlock-IsConsistent :
    (s : System)
    → IsConsistent s
    → IsConsistent
        (let (lock, st) = rwl_tryrdlock s.lock in reader_at (returns st) (record s { lock = lock }))
unfolding rwl_tryrdlock reader_at reader_blocked
tryrdlock-IsConsistent s c = ground arith

wrlock-IsConsistent :
    (s : System)
    → IsConsistent s
    → IsConsistent (let (lock, o) = rwl_wrlock s.lock in writer_at o (record s { lock = lock }))
unfolding rwl_wrlock writer_at writer_blocked
wrlock-IsConsistent s c = ground arith

wrlock_woken-IsConsistent :
    (s : System)
    → 0 < s.woken_write
    → IsConsistent s
    → IsConsistent (
        let (lock, o) = rwl_wrlock_woken s.lock in
        writer_at o (record s { lock = lock; woken_write = s.woken_write - 1 }))
unfolding rwl_wrlock_woken writer_at writer_blocked
wrlock_woken-IsConsistent s h c = ground arith

trywrlock-IsConsistent :
    (s : System)
    → IsConsistent s
    → IsConsistent
        (let (lock, st) = rwl_trywrlock s.lock in writer_at (returns st) (record s { lock = lock }))
unfolding rwl_trywrlock writer_at writer_blocked
trywrlock-IsConsistent s c = ground arith

rdunlock-IsConsistent :
    (s : System)
    → 0 < s.reading
    → IsConsistent s
    → IsConsistent (
        let (lock, st, w) = rwl_rdunlock s.lock in
        wake w (record s { lock = lock; reading = s.reading - 1 }))
unfolding rwl_rdunlock wake
rdunlock-IsConsistent s h c = ground arith

wrunlock-IsConsistent :
    (s : System)
    → 0 < s.writing
    → IsConsistent s
    → IsConsistent (
        let (lock, st, w) = rwl_wrunlock s.lock in
        wake w (record s { lock = lock; writing = s.writing - 1 }))
unfolding rwl_wrunlock wake
wrunlock-IsConsistent s h c = ground arith

Step-IsConsistent : {s t : System} → IsConsistent s → Step s t → IsConsistent t
unfolding rwl_readcleanup rwl_writecleanup
Step-IsConsistent {s} c rdlock = rdlock-IsConsistent s c
Step-IsConsistent {s} c (rdlock_woken h) = rdlock_woken-IsConsistent s h c
Step-IsConsistent {s} c tryrdlock = tryrdlock-IsConsistent s c
Step-IsConsistent {s} c (rdunlock h) = rdunlock-IsConsistent s h c
Step-IsConsistent {s} c wrlock = wrlock-IsConsistent s c
Step-IsConsistent {s} c (wrlock_woken h) = wrlock_woken-IsConsistent s h c
Step-IsConsistent {s} c trywrlock = trywrlock-IsConsistent s c
Step-IsConsistent {s} c (wrunlock h) = wrunlock-IsConsistent s h c
Step-IsConsistent {s} c (spurious_read h) = grind arith
Step-IsConsistent {s} c (spurious_write h) = grind arith
Step-IsConsistent {s} c (cancel_read h) = grind arith
Step-IsConsistent {s} c (cancel_write h) = grind arith
Step-IsConsistent {s} c (cancel_woken_read h) = grind arith
Step-IsConsistent {s} c (cancel_woken_write h) = grind arith
Step-IsConsistent {s} c (cleanup_read h) = grind arith
Step-IsConsistent {s} c (cleanup_write h) = grind arith

pub Reach-IsConsistent : {s : System} → Reach s → IsConsistent s
unfolding idle rwl_init
Reach-IsConsistent start = grind arith
Reach-IsConsistent (later r t) = Step-IsConsistent (Reach-IsConsistent r) t
