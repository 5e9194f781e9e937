-- ===== src/ReadWriteLock/Exclusion.antt =====
-- The ReadWriteLock among threads: who has it, and who waits.
use flinter.Base.{ℕ, zero, suc, ◌+◌, ◌<◌, ◌≤◌, ◌≡◌, Bool, true, false, not, arith}
use flinter.Base.Int.{ℤ, pos, negsuc}
use flinter.ReadWriteLock.{
  Context, inc, dec, is_zero, reader_lock, writer_lock, try_reader_lock, try_writer_lock, Fortune,
  give_up, pass_on, unlock,
}

-- The counts of the lock; the semaphores `_reader_wait` and `_writer_wait`; how many threads read, write,
-- and wait for each of the semaphores.
pub record System : Type 0 where
  pub context : Context
  pub reader_signals : ℕ
  pub writer_signals : ℕ
  pub readers : ℕ
  pub writers : ℕ
  pub waiting_readers : ℕ
  pub waiting_writers : ℕ

abbrev one_if : Bool → ℕ
one_if true = 1
one_if false = 0

-- ReaderLock() and WriterLock(): the thread has the lock, or waits.
unfoldable pub read_locked : Bool × Context → System → System
read_locked (pending, c) s = record s {
  context = c;
  readers = one_if (not pending) + s.readers;
  waiting_readers = one_if pending + s.waiting_readers;
}

unfoldable pub write_locked : Bool × Context → System → System
write_locked (pending, c) s = record s {
  context = c;
  writers = one_if (not pending) + s.writers;
  waiting_writers = one_if pending + s.waiting_writers;
}

unfoldable pub try_read : Bool × Context → System → System
try_read (granted, c) s = record s { context = c; readers = one_if granted + s.readers }

unfoldable pub try_write : Bool × Context → System → System
try_write (granted, c) s = record s { context = c; writers = one_if granted + s.writers }

-- ReleaseSemaphore().
unfoldable pub signal : Fortune × Context → System → System
signal (Fortune.no_one, c) s = record s { context = c }
signal (Fortune.writer_wait, c) s = record s { context = c; writer_signals = suc s.writer_signals }
signal (Fortune.reader_wait n, c) s = record s {
  context = c;
  reader_signals = n + s.reader_signals;
}

-- Any thread may take the mutex; one that unlocks has the lock; one that waits goes on when its
-- semaphore is not zero, and takes one from it.
pub data Step (s : System) : System → Type 0 where
  lock_read : Step s (read_locked (reader_lock s.context) s)
  lock_write : Step s (write_locked (writer_lock s.context) s)
  try_lock_read : Step s (try_read (try_reader_lock s.context) s)
  try_lock_write : Step s (try_write (try_writer_lock s.context) s)
  unlock_read :
      {n : ℕ} → s.readers ≡ suc n → Step s (signal (unlock s.context) (record s { readers = n }))
  unlock_write :
      {n : ℕ} → s.writers ≡ suc n → Step s (signal (unlock s.context) (record s { writers = n }))
  wake_reader :
      {n m : ℕ}
      → s.reader_signals ≡ suc n
      → s.waiting_readers ≡ suc m
      → Step s (record s { reader_signals = n; waiting_readers = m; readers = suc s.readers })
  wake_writer :
      {n m : ℕ}
      → s.writer_signals ≡ suc n
      → s.waiting_writers ≡ suc m
      → Step s (record s { writer_signals = n; waiting_writers = m; writers = suc s.writers })

abbrev pub initial : System
initial = record {
  context = record { access = pos 0; reader_queue = 0; writer_queue = 0 };
  reader_signals = 0;
  writer_signals = 0;
  readers = 0;
  writers = 0;
  waiting_readers = 0;
  waiting_writers = 0;
}

pub data Reach : System → Type 0 where
  start : Reach initial
  after : {s t : System} → Reach s → Step s t → Reach t

-- What `_access` says of the threads that have the lock or are to get it, `r` readers and `w` writers, and
-- of the queues.
abbrev Says : ℤ → ℕ → ℕ → ℕ → ℕ → Type 0
Says (pos zero) r w rq wq = (r ≡ 0) × (w ≡ 0) × (rq ≡ 0) × (wq ≡ 0)
Says (pos (suc n)) r w rq wq = (r ≡ suc n) × (w ≡ 0)
Says (negsuc zero) r w rq wq = (r ≡ 0) × (w ≡ 1)
Says (negsuc (suc n)) r w rq wq = ⊥

-- Who waits is in a queue or has been signalled.
IsConsistent : System → Type 0
IsConsistent s =
    Says s.context.access (s.readers + s.reader_signals) (s.writers + s.writer_signals)
      s.context.reader_queue s.context.writer_queue
    × (s.context.reader_queue + s.reader_signals ≡ s.waiting_readers)
    × (s.context.writer_queue + s.writer_signals ≡ s.waiting_writers)

lock_read-IsConsistent :
    (s : System) → IsConsistent s → IsConsistent (read_locked (reader_lock s.context) s)
unfolding IsConsistent read_locked reader_lock inc
lock_read-IsConsistent s p = ground arith

lock_write-IsConsistent :
    (s : System) → IsConsistent s → IsConsistent (write_locked (writer_lock s.context) s)
unfolding IsConsistent write_locked writer_lock dec is_zero
lock_write-IsConsistent s p = ground arith

try_read-IsConsistent :
    (s : System) → IsConsistent s → IsConsistent (try_read (try_reader_lock s.context) s)
unfolding IsConsistent try_read try_reader_lock inc
try_read-IsConsistent s p = ground arith

try_write-IsConsistent :
    (s : System) → IsConsistent s → IsConsistent (try_write (try_writer_lock s.context) s)
unfolding IsConsistent try_write try_writer_lock dec is_zero
try_write-IsConsistent s p = ground arith

unlock_read-IsConsistent :
    (s : System) (n : ℕ)
    → s.readers ≡ suc n
    → IsConsistent s
    → IsConsistent (signal (unlock s.context) (record s { readers = n }))
unfolding IsConsistent signal unlock give_up pass_on inc dec is_zero
unlock_read-IsConsistent s n e p = ground arith

unlock_write-IsConsistent :
    (s : System) (n : ℕ)
    → s.writers ≡ suc n
    → IsConsistent s
    → IsConsistent (signal (unlock s.context) (record s { writers = n }))
unfolding IsConsistent signal unlock give_up pass_on inc dec is_zero
unlock_write-IsConsistent s n e p = ground arith

wake_reader-IsConsistent :
    (s : System) (n m : ℕ)
    → s.reader_signals ≡ suc n
    → s.waiting_readers ≡ suc m
    → IsConsistent s
    → IsConsistent (record s { reader_signals = n; waiting_readers = m; readers = suc s.readers })
unfolding IsConsistent
wake_reader-IsConsistent s n m e f p = ground arith

wake_writer-IsConsistent :
    (s : System) (n m : ℕ)
    → s.writer_signals ≡ suc n
    → s.waiting_writers ≡ suc m
    → IsConsistent s
    → IsConsistent (record s { writer_signals = n; waiting_writers = m; writers = suc s.writers })
unfolding IsConsistent
wake_writer-IsConsistent s n m e f p = ground arith

step-IsConsistent : {s t : System} → Step s t → IsConsistent s → IsConsistent t
step-IsConsistent {s = s} lock_read p = lock_read-IsConsistent s p
step-IsConsistent {s = s} lock_write p = lock_write-IsConsistent s p
step-IsConsistent {s = s} try_lock_read p = try_read-IsConsistent s p
step-IsConsistent {s = s} try_lock_write p = try_write-IsConsistent s p
step-IsConsistent {s = s} (unlock_read {n = n} e) p = unlock_read-IsConsistent s n e p
step-IsConsistent {s = s} (unlock_write {n = n} e) p = unlock_write-IsConsistent s n e p
step-IsConsistent {s = s} (wake_reader {n = n} {m = m} e f) p = wake_reader-IsConsistent s n m e f p
step-IsConsistent {s = s} (wake_writer {n = n} {m = m} e f) p = wake_writer-IsConsistent s n m e f p

Reach-IsConsistent : {s : System} → Reach s → IsConsistent s
unfolding IsConsistent
Reach-IsConsistent start = ground arith
Reach-IsConsistent (after r step) = step-IsConsistent step (Reach-IsConsistent r)

-- In every order of the threads' steps, at most one thread writes, and none reads while one writes.
pub Reach-exclusive_lock :
    {s : System} → Reach s → (s.writers ≤ 1) × (0 < s.writers → s.readers ≡ 0)
unfolding IsConsistent
Reach-exclusive_lock {s = s} r = let p = Reach-IsConsistent r in ground arith

-- In every order of the threads' steps, no wake-up is lost: where no thread has the lock and some
-- thread waits, a semaphore is not zero, and the value of neither semaphore is more than the number of
-- threads that wait for it, so that one of them may go on.
pub Reach-woken :
    {s : System}
    → Reach s
    → s.readers ≡ 0
    → s.writers ≡ 0
    → (0 < s.waiting_readers + s.waiting_writers → 0 < s.reader_signals + s.writer_signals)
      × (s.reader_signals ≤ s.waiting_readers)
      × (s.writer_signals ≤ s.waiting_writers)
unfolding IsConsistent
Reach-woken {s = s} r e f = let p = Reach-IsConsistent r in ground arith
