-- ===== src/ReadWriteLock.antt =====
-- class ReadWriteLock of flinter/thread/read_write_lock.cpp, as it is built where there are no POSIX
-- locks. Each function is one stretch under `_context->_mutex`; what follows behind it, a wait for a
-- semaphore, is a step of the system in Exclusion. A call of the system that fails throws before
-- anything is changed, and is left out. `int` counts are numbers: there are fewer threads than INT_MAX.
pub mod Exclusion
mod Tests
use flinter.Base.{ℕ, zero, suc, ◌-◌, Bool, true, false, not, ◌&&◌, ◌||◌, ◌==◌, ltb, if◌then◌else◌}
use flinter.Base.Int.{ℤ, pos, negsuc, ltb_ℤ}

-- The fields of ReadWriteLock::Context that are counts.
pub record Context : Type 0 where
  pub access : ℤ
  pub reader_queue : ℕ
  pub writer_queue : ℕ

-- `++` and `--`.
unfoldable pub inc : ℤ → ℤ
inc (pos n) = pos (suc n)
inc (negsuc zero) = pos 0
inc (negsuc (suc n)) = negsuc n

unfoldable pub dec : ℤ → ℤ
dec (pos zero) = negsuc 0
dec (pos (suc n)) = pos n
dec (negsuc n) = negsuc (suc n)

unfoldable pub is_zero : ℤ → Bool
is_zero (pos zero) = true
is_zero _ = false

-- ReaderLock(): whether the thread is to wait for `_reader_wait`.
unfoldable pub reader_lock : Context → Bool × Context
unfolding inc
reader_lock c =
    if ltb_ℤ c.access (pos 0) || ltb 0 c.writer_queue
    then (true, record c { reader_queue = suc c.reader_queue })
    else (false, record c { access = inc c.access })

-- WriterLock(): whether the thread is to wait for `_writer_wait`.
unfoldable pub writer_lock : Context → Bool × Context
unfolding dec is_zero
writer_lock c =
    if not (is_zero c.access)
    then (true, record c { writer_queue = suc c.writer_queue })
    else (false, record c { access = dec c.access })

-- TryReaderLock() and TryWriterLock(): whether access is granted.
unfoldable pub try_reader_lock : Context → Bool × Context
unfolding inc
try_reader_lock c =
    if not (ltb_ℤ c.access (pos 0)) && (c.writer_queue == 0)
    then (true, record c { access = inc c.access })
    else (false, c)

unfoldable pub try_writer_lock : Context → Bool × Context
unfolding dec is_zero
try_writer_lock c =
    if is_zero c.access then (true, record c { access = dec c.access }) else (false, c)

-- `fortune` and `cookies`: the semaphore that Unlock() releases, and how often.
pub data Fortune : Type 0 where
  no_one : Fortune
  writer_wait : Fortune
  reader_wait : ℕ → Fortune

unfoldable pub give_up : Context → Context
unfolding inc dec
give_up c = record c { access = if ltb_ℤ (pos 0) c.access then dec c.access else inc c.access }

unfoldable pub pass_on : Context → Fortune × Context
unfolding dec is_zero
pass_on c =
    if not (is_zero c.access)
    then (no_one, c)
    else if ltb 0 c.writer_queue
    then (
      writer_wait,
      record {
        access = dec c.access;
        reader_queue = c.reader_queue;
        writer_queue = c.writer_queue - 1;
      },
    )
    else if ltb 0 c.reader_queue
    then (reader_wait c.reader_queue, record c { access = pos c.reader_queue; reader_queue = 0 })
    else (no_one, c)

unfoldable pub unlock : Context → Fortune × Context
unfolding give_up pass_on
unlock c = pass_on (give_up c)
