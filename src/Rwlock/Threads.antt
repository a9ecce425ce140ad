-- ===== src/Rwlock/Threads.antt =====
-- Threads that use one lock of src/rwlock.c, in any order. Threads in the same place are alike, so
-- that a state has the number of threads in each place.
use gnuais.Common.{ℕ, ◌+◌, ◌-◌, ◌<◌, ltb, if◌then◌else◌}
use gnuais.Rwlock.{
  RwLock, success, einval, ebusy, Outcome, returns, waits, Wake, nobody, signal_write,
  broadcast_read, rwl_init, rwl_rdlock, rwl_rdlock_woken, rwl_readcleanup, rwl_tryrdlock,
  rwl_rdunlock, rwl_wrlock, rwl_wrlock_woken, rwl_writecleanup, rwl_trywrlock, rwl_wrunlock,
}

-- The lock, the threads that wait on its condition variables, those that are woken and have not
-- got the mutex yet, those that are cancelled and have not got the mutex for the cleanup yet, and those
-- that hold the lock; and how many threads have been cancelled so far.
pub record System : Type 0 where
  pub lock : RwLock
  pub waiting_read : ℕ
  pub woken_read : ℕ
  pub cancelled_read : ℕ
  pub reading : ℕ
  pub waiting_write : ℕ
  pub woken_write : ℕ
  pub cancelled_write : ℕ
  pub writing : ℕ
  pub cancellations : ℕ

-- Where a thread comes to that asks for the lock: it waits, holds the lock, or gets an error.
unfoldable pub reader_at : Outcome → System → System
reader_at waits s = record s { waiting_read = s.waiting_read + 1 }
reader_at (returns success) s = record s { reading = s.reading + 1 }
reader_at (returns einval) s = s
reader_at (returns ebusy) s = s

unfoldable pub writer_at : Outcome → System → System
writer_at waits s = record s { waiting_write = s.waiting_write + 1 }
writer_at (returns success) s = record s { writing = s.writing + 1 }
writer_at (returns einval) s = s
writer_at (returns ebusy) s = s

-- A signal wakes one thread that waits, if there is one; a broadcast wakes all.
unfoldable pub wake : Wake → System → System
wake nobody s = s
wake signal_write s =
    if ltb 0 s.waiting_write
    then record s { waiting_write = s.waiting_write - 1; woken_write = s.woken_write + 1 }
    else s
wake broadcast_read s = record s { waiting_read = 0; woken_read = s.woken_read + s.waiting_read }

-- A step of one thread. A thread asks for the lock, goes on behind a wait, or gives the lock back. It
-- may also be woken for no reason, which pthread_cond_wait allows, or be cancelled in its wait or
-- behind it; it then runs the cleanup as soon as it gets the mutex.
pub data Step (s : System) : System → Type 0 where
  rdlock : Step s (let (lock, o) = rwl_rdlock s.lock in reader_at o (record s { lock = lock }))
  rdlock_woken :
      0 < s.woken_read
      → Step s (
          let (lock, o) = rwl_rdlock_woken s.lock in
          reader_at o (record s { lock = lock; woken_read = s.woken_read - 1 }))
  tryrdlock :
      Step s
        (let (lock, st) = rwl_tryrdlock s.lock in reader_at (returns st) (record s { lock = lock }))
  rdunlock :
      0 < s.reading
      → Step s (
          let (lock, st, w) = rwl_rdunlock s.lock in
          wake w (record s { lock = lock; reading = s.reading - 1 }))
  wrlock : Step s (let (lock, o) = rwl_wrlock s.lock in writer_at o (record s { lock = lock }))
  wrlock_woken :
      0 < s.woken_write
      → Step s (
          let (lock, o) = rwl_wrlock_woken s.lock in
          writer_at o (record s { lock = lock; woken_write = s.woken_write - 1 }))
  trywrlock :
      Step s
        (let (lock, st) = rwl_trywrlock s.lock in writer_at (returns st) (record s { lock = lock }))
  wrunlock :
      0 < s.writing
      → Step s (
          let (lock, st, w) = rwl_wrunlock s.lock in
          wake w (record s { lock = lock; writing = s.writing - 1 }))
  spurious_read :
      0 < s.waiting_read
      → Step s (record s { waiting_read = s.waiting_read - 1; woken_read = s.woken_read + 1 })
  spurious_write :
      0 < s.waiting_write
      → Step s (record s { waiting_write = s.waiting_write - 1; woken_write = s.woken_write + 1 })
  cancel_read :
      0 < s.waiting_read
      → Step s (record s {
        waiting_read = s.waiting_read - 1;
        cancelled_read = s.cancelled_read + 1;
        cancellations = s.cancellations + 1;
      })
  cancel_woken_read :
      0 < s.woken_read
      → Step s (record s {
        woken_read = s.woken_read - 1;
        cancelled_read = s.cancelled_read + 1;
        cancellations = s.cancellations + 1;
      })
  cleanup_read :
      0 < s.cancelled_read
      → Step s (record s { lock = rwl_readcleanup s.lock; cancelled_read = s.cancelled_read - 1 })
  cancel_write :
      0 < s.waiting_write
      → Step s (record s {
        waiting_write = s.waiting_write - 1;
        cancelled_write = s.cancelled_write + 1;
        cancellations = s.cancellations + 1;
      })
  cancel_woken_write :
      0 < s.woken_write
      → Step s (record s {
        woken_write = s.woken_write - 1;
        cancelled_write = s.cancelled_write + 1;
        cancellations = s.cancellations + 1;
      })
  cleanup_write :
      0 < s.cancelled_write
      → Step s
          (record s { lock = rwl_writecleanup s.lock; cancelled_write = s.cancelled_write - 1 })

-- All threads are outside of the lock.
unfoldable pub idle : System
unfolding rwl_init
idle = record {
  lock = rwl_init;
  waiting_read = 0;
  woken_read = 0;
  cancelled_read = 0;
  reading = 0;
  waiting_write = 0;
  woken_write = 0;
  cancelled_write = 0;
  writing = 0;
  cancellations = 0;
}

pub data Reach : System → Type 0 where
  start : Reach idle
  later : {s t : System} → Reach s → Step s t → Reach t
