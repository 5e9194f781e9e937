-- ===== src/ReadWriteLock/Tests.antt =====
-- Runs of the lock of flinter/thread/read_write_lock.cpp.
use flinter.Base.{◌+◌, ◌<◌, ◌≤◌, ◌≡◌, refl, false}
use flinter.ReadWriteLock.{reader_lock, writer_lock, try_reader_lock, unlock, give_up, pass_on}
use flinter.ReadWriteLock.Exclusion.{
  System, Step, Reach, initial, read_locked, write_locked, signal, Reach-exclusive_lock,
  Reach-woken,
}

-- A reader has the lock, a writer waits; then the reader leaves.
abbrev read_once : System
read_once = read_locked (reader_lock initial.context) initial

abbrev write_behind : System
write_behind = write_locked (writer_lock read_once.context) read_once

abbrev reader_left : System
reader_left = signal (unlock write_behind.context) (record write_behind { readers = 0 })

no_reader_passes_a_writer : (try_reader_lock write_behind.context).0 ≡ false
unfolding try_reader_lock write_locked writer_lock read_locked reader_lock
no_reader_passes_a_writer = refl

write_behind-Reach : Reach write_behind
write_behind-Reach = Reach.after (Reach.after Reach.start Step.lock_read) Step.lock_write

reader_left-Reach : Reach reader_left
unfolding read_locked write_locked reader_lock
reader_left-Reach = Reach.after write_behind-Reach (Step.unlock_read refl)

Reach-exclusive_lock_example :
    (reader_left.writers ≤ 1) × (0 < reader_left.writers → reader_left.readers ≡ 0)
Reach-exclusive_lock_example = Reach-exclusive_lock reader_left-Reach

Reach-woken_example :
    (0 < reader_left.waiting_readers + reader_left.waiting_writers
      → 0 < reader_left.reader_signals + reader_left.writer_signals)
    × (reader_left.reader_signals ≤ reader_left.waiting_readers)
    × (reader_left.writer_signals ≤ reader_left.waiting_writers)
unfolding read_locked reader_lock write_locked writer_lock unlock give_up pass_on signal
Reach-woken_example = Reach-woken reader_left-Reach refl refl
