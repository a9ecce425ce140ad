-- ===== src/Rwlock.antt =====
-- src/rwlock.c: the read-write lock. A function runs under the lock's mutex from its start to its
-- end, or to `pthread_cond_wait`, which releases the mutex; a second function goes on behind the wait.
-- The calls of pthread succeed. What a function wakes is part of its result. A counter is a ℕ: a
-- thread gives back only what it holds, so that none falls below 0 (`Reach-IsConsistent`).
pub mod Threads
pub mod Invariant
pub mod Safety
use gnuais.Common.{ℕ, ◌+◌, ◌-◌, Bool, true, false, ◌||◌, not, ltb, ◌==◌, if◌then◌else◌}

-- rwlock_t, without the mutex and the condition variables; `valid` is a test for RWLOCK_VALID.
pub record RwLock : Type 0 where
  pub valid : Bool
  pub r_active : ℕ
  pub w_active : ℕ
  pub r_wait : ℕ
  pub w_wait : ℕ

pub data Status : Type 0 where
  success : Status
  einval : Status
  ebusy : Status

-- How a call to lock goes on: it returns, or it waits on its condition variable.
pub data Outcome : Type 0 where
  returns : Status → Outcome
  waits : Outcome

-- Who is woken: nobody, one that waits on `write`, or all that wait on `read`.
pub data Wake : Type 0 where
  nobody : Wake
  signal_write : Wake
  broadcast_read : Wake

unfoldable pub rwl_init : RwLock
rwl_init = record { valid = true; r_active = 0; w_active = 0; r_wait = 0; w_wait = 0 }

unfoldable pub rwl_destroy : RwLock → RwLock × Status
rwl_destroy rwl =
    if not rwl.valid
    then (rwl, einval)
    else if ltb 0 rwl.r_active || not (rwl.w_active == 0)
    then (rwl, ebusy)
    else if not (rwl.r_wait == 0) || not (rwl.w_wait == 0)
    then (rwl, ebusy)
    else (record rwl { valid = false }, success)

-- The conditions of the loops in `rwl_rdlock` and `rwl_wrlock`.
unfoldable pub reader_blocked : RwLock → Bool
reader_blocked rwl = not (rwl.w_active == 0)

unfoldable pub writer_blocked : RwLock → Bool
writer_blocked rwl = not (rwl.w_active == 0) || ltb 0 rwl.r_active

-- `rwl_rdlock` up to its end or its first wait.
unfoldable pub rwl_rdlock : RwLock → RwLock × Outcome
unfolding reader_blocked
rwl_rdlock rwl =
    if not rwl.valid
    then (rwl, returns einval)
    else if reader_blocked rwl
    then (record rwl { r_wait = rwl.r_wait + 1 }, waits)
    else (record rwl { r_active = rwl.r_active + 1 }, returns success)

-- `rwl_rdlock` behind a wait.
unfoldable pub rwl_rdlock_woken : RwLock → RwLock × Outcome
unfolding reader_blocked
rwl_rdlock_woken rwl =
    if reader_blocked rwl
    then (rwl, waits)
    else (record rwl { r_wait = rwl.r_wait - 1; r_active = rwl.r_active + 1 }, returns success)

unfoldable pub rwl_readcleanup : RwLock → RwLock
rwl_readcleanup rwl = record rwl { r_wait = rwl.r_wait - 1 }

unfoldable pub rwl_tryrdlock : RwLock → RwLock × Status
unfolding reader_blocked
rwl_tryrdlock rwl =
    if not rwl.valid
    then (rwl, einval)
    else if reader_blocked rwl
    then (rwl, ebusy)
    else (record rwl { r_active = rwl.r_active + 1 }, success)

unfoldable pub rwl_rdunlock : RwLock → RwLock × Status × Wake
rwl_rdunlock rwl =
    let r_active = rwl.r_active - 1 in
    let wake =
      if r_active == 0 then (if ltb 0 rwl.w_wait then signal_write else nobody) else nobody in
    if not rwl.valid
    then (rwl, einval, nobody)
    else (record rwl { r_active = r_active }, success, wake)

-- `rwl_wrlock` up to its end or its first wait.
unfoldable pub rwl_wrlock : RwLock → RwLock × Outcome
unfolding writer_blocked
rwl_wrlock rwl =
    if not rwl.valid
    then (rwl, returns einval)
    else if writer_blocked rwl
    then (record rwl { w_wait = rwl.w_wait + 1 }, waits)
    else (record rwl { w_active = 1 }, returns success)

-- `rwl_wrlock` behind a wait.
unfoldable pub rwl_wrlock_woken : RwLock → RwLock × Outcome
unfolding writer_blocked
rwl_wrlock_woken rwl =
    if writer_blocked rwl
    then (rwl, waits)
    else (record rwl { w_wait = rwl.w_wait - 1; w_active = 1 }, returns success)

unfoldable pub rwl_writecleanup : RwLock → RwLock
rwl_writecleanup rwl = record rwl { w_wait = rwl.w_wait - 1 }

unfoldable pub rwl_trywrlock : RwLock → RwLock × Status
unfolding writer_blocked
rwl_trywrlock rwl =
    if not rwl.valid
    then (rwl, einval)
    else if writer_blocked rwl
    then (rwl, ebusy)
    else (record rwl { w_active = 1 }, success)

unfoldable pub rwl_wrunlock : RwLock → RwLock × Status × Wake
rwl_wrunlock rwl =
    let wake =
      if ltb 0 rwl.r_wait
      then broadcast_read
      else if ltb 0 rwl.w_wait
      then signal_write
      else nobody in
    if not rwl.valid then (rwl, einval, nobody) else (record rwl { w_active = 0 }, success, wake)
