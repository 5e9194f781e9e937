-- ===== src/Linkage/Send.antt =====
-- Send() and the sending buffer of flinter/linkage/linkage.cpp, with the requests that a linkage
-- makes of its worker (SetWanna() and its two kin in flinter/linkage/linkage_worker.cpp).
pub mod Stream
pub mod Bound
use flinter.Base.{
  ℕ, zero, suc, ◌+◌, ◌-◌, ◌*◌, ◌%◌, ◌^◌, Bool, true, false, not, ◌&&◌, ◌||◌, ◌==◌, ltb, leb,
  if◌then◌else◌, Option, none, some, Bytes, [], ◌∷◌, ◌++◌, length, take, drop,
}
use flinter.Linkage.Io.{
  Status, ok, jammed, wanna_read, wanna_write, bug, error, closed, Action, idle, write, AbstractIo,
}
use flinter.Linkage.State.{Conn, Client}

-- kMaximumBytes.
abbrev pub maximum_bytes : ℕ
maximum_bytes = 64 * 1024 * 1024

abbrev pub int_max : ℕ
int_max = 2 ^ 31 - 1

abbrev pub size_mod : ℕ
size_mod = 2 ^ 64

unfoldable pub is_idle : Action → Bool
is_idle idle = true
is_idle _ = false

module _ {S H : Type 0} where
  -- `_wbuffer` takes the bytes if there is room; the subtraction is of size_t.
  unfoldable pub append_sending_buffer : Bytes → Conn S H → Bool × Conn S H
  append_sending_buffer buffer c =
      let left = (maximum_bytes + size_mod - length c.wbuffer) % size_mod in
      if ltb left (length buffer)
      then (false, c)
      else (true, record c { wbuffer = c.wbuffer ++ buffer })

  -- How much to write; after an incomplete write, as much as then.
  unfoldable pub pick_sending_buffer : Conn S H → ℕ × Conn S H
  pick_sending_buffer c =
      if length c.wbuffer == 0
      then (0, c)
      else if not (c.last_writing == 0)
      then (c.last_writing, record c { last_writing = 0 })
      else (length c.wbuffer, c)

  unfoldable pub consume_sending_buffer : ℕ → Conn S H → Conn S H
  consume_sending_buffer n c = record c { wbuffer = drop n c.wbuffer }

  unfoldable pub dump_sending_buffer : Conn S H → Conn S H
  dump_sending_buffer c = record c { wbuffer = [] }

  unfoldable pub update_connect_jam : Bool → Conn S H → Conn S H
  update_connect_jam true c = record c {
    connect_jam = if c.connect_jam == 0 then c.now else c.connect_jam;
  }
  update_connect_jam false c = record c { connect_jam = 0 }

  unfoldable pub update_last_sent : Bool → Bool → Conn S H → Conn S H
  update_last_sent sent jam c = record c {
    last_sent = if sent then c.now else c.last_sent;
    send_jam = if jam then (if c.send_jam == 0 then c.now else c.send_jam) else 0;
  }

  -- A linkage that is not in the event table is left alone.
  unfoldable pub set_wanna : Bool → Bool → Conn S H → Conn S H
  set_wanna r w c = elim c.client [
    | none ↦ c
    | some _ ↦ record c { client = some (record { running_r = r; running_w = w }) }
  ]

  unfoldable pub set_wanna_read : Bool → Conn S H → Conn S H
  set_wanna_read r c = elim c.client [
    | none ↦ c
    | some k ↦ record c { client = some (record { running_r = r; running_w = k.running_w }) }
  ]

  unfoldable pub set_wanna_write : Bool → Conn S H → Conn S H
  set_wanna_write w c = elim c.client [
    | none ↦ c
    | some k ↦ record c { client = some (record { running_r = k.running_r; running_w = w }) }
  ]

  -- The parts of Send() behind a write that did not take all: `on_queued` is what follows a
  -- successful AppendSendingBuffer().
  unfoldable pub queue : Bytes → (Conn S H → Conn S H) → Conn S H → Bool × Conn S H
  unfolding append_sending_buffer
  queue buffer on_queued c =
      let (done, c') = append_sending_buffer buffer c in
      if done then (true, on_queued c') else (false, c')

  -- The transport wants another event first, and then the same write again.
  unfoldable pub retry_later : Bool → Bool → ℕ → Conn S H → Conn S H
  unfolding set_wanna update_last_sent
  retry_later r w n c =
      record (update_last_sent false true (set_wanna r w (record c { action = write }))) {
        last_writing = n;
      }

  unfoldable pub after_write : Bytes → Status × ℕ × Conn S H → Bool × Conn S H
  unfolding queue retry_later set_wanna set_wanna_write update_last_sent
  after_write buffer (jammed, n, c) =
      queue buffer (λ c'. update_last_sent false true (set_wanna false true c')) c
  after_write buffer (wanna_read, n, c) = queue buffer (retry_later true false (length buffer)) c
  after_write buffer (wanna_write, n, c) = queue buffer (retry_later false true (length buffer)) c
  after_write buffer (ok, n, c) =
      if ltb n (length buffer)
      then queue (drop n buffer) (λ c'. update_last_sent true true (set_wanna_write true c')) c
      else (true, update_last_sent true false c)
  after_write buffer (_, n, c) = (false, c)

  unfoldable pub io_write : AbstractIo S → Bytes → Conn S H → Status × ℕ × Conn S H
  io_write io buffer c =
      let (status, n, s) = io.do_write buffer c.io in (status, n, record c { io = s })

  -- Send() on a linkage that has a worker.
  unfoldable pub send_attached : AbstractIo S → Bytes → Conn S H → Bool × Conn S H
  unfolding append_sending_buffer after_write io_write is_idle
  send_attached io buffer c =
      if ltb int_max (length buffer) || c.graceful
      then (false, c)
      else if length buffer == 0
      then (true, c)
      else if not (is_idle c.action) || not (length c.wbuffer == 0)
      then queue buffer (λ c'. c') c
      else after_write buffer (io_write io buffer c)

  -- `buffer` is null for `none`.
  unfoldable pub send : AbstractIo S → Option Bytes → Conn S H → Bool × Conn S H
  unfolding send_attached
  send io none c = (false, c)
  send io (some buffer) c = elim c.worker [ none ↦ (false, c) | some _ ↦ send_attached io buffer c ]
