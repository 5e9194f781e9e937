-- ===== src/Linkage/Event.antt =====
-- The event handling of flinter/linkage/linkage.cpp: OnEvent(), OnEventOnce(), AfterEvent(),
-- Shutdown(), Disconnect(), DoConnected(). The loop of OnEvent() takes fuel; `none`: it ran out.
pub mod Ends
pub mod Stream
pub mod Leaving
use flinter.Base.{
  ℕ, zero, suc, Bool, true, false, not, ◌==◌, ltb, if◌then◌else◌, Option, none, some, Bytes, length,
  take, ◌>>=◌,
}
use flinter.Base.Int.{ℤ, pos, negsuc}
use flinter.Linkage.Io.{
  Status, ok, bug, error, jammed, closed, wanna_read, wanna_write, Action, idle, read, write,
  accept, connect, shutdown, AbstractIo, Reading,
}
use flinter.Linkage.State.{Conn, Linkage, LinkageHandler, update_last_received}
use flinter.Linkage.Receive.{on_received, minus_one}
use flinter.Linkage.Send.{
  is_idle, pick_sending_buffer, consume_sending_buffer, dump_sending_buffer, update_connect_jam,
  update_last_sent, set_wanna, set_wanna_read, io_write,
}

-- The macro INCOMPLETE.
unfoldable pub is_incomplete : Status → Bool
is_incomplete wanna_read = true
is_incomplete wanna_write = true
is_incomplete _ = false

unfoldable pub action_if_incomplete : Status → Action → Action
unfolding is_incomplete
action_if_incomplete status action = if is_incomplete status then action else idle

-- What OnEventOnce() returns, with `*next_action`.
pub record Turned (S H : Type 0) : Type 0 where
  pub ret : ℤ
  pub next_action : Action
  pub linkage : Linkage S H

module _ {S H : Type 0} where
  unfoldable pub after_event : Status → Conn S H → ℤ × Conn S H
  unfolding set_wanna
  after_event wanna_read c = (pos 1, set_wanna true false c)
  after_event wanna_write c = (pos 1, set_wanna false true c)
  after_event closed c = (pos 0, c)
  after_event ok c = (pos 1, c)
  after_event _ c = (minus_one, c)

  -- Behind the ladder of OnEventOnce(): the action is kept if it is incomplete.
  unfoldable pub finish : Action → Status → Linkage S H → Turned S H
  unfolding after_event action_if_incomplete
  finish action status l =
      let (ret, c) =
        after_event status (record l.conn { action = action_if_incomplete status action }) in
      record { ret = ret; next_action = idle; linkage = record l { conn = c } }

  unfoldable pub set_action : Action → Linkage S H → Linkage S H
  set_action action l = record l { conn = record l.conn { action = action } }

module _ {S H : Type 0} (io : AbstractIo S) (h : LinkageHandler S H) where
  -- Shutdown(&status): the result, the status and the connection.
  unfoldable pub shut_status : Status → Status × S → Conn S H → ℤ × Status × Conn S H
  shut_status _ (ok, s) c = (pos 0, ok, record c { io = s; closed = true })
  shut_status _ (closed, s) c = (pos 0, closed, record c { io = s; closed = true })
  shut_status _ (wanna_read, s) c = (pos 1, wanna_read, record c { io = s })
  shut_status _ (wanna_write, s) c = (pos 1, wanna_write, record c { io = s })
  shut_status _ (status, s) c = (minus_one, status, record c { io = s })

  unfoldable pub shut : Status → Conn S H → ℤ × Status × Conn S H
  unfolding shut_status update_connect_jam
  shut status c =
      let c' = record c { graceful = true } in
      if c.closed
      then (pos 0, status, c')
      else shut_status status (io.do_shutdown c.io) (update_connect_jam true c')

  unfoldable pub do_connected : Linkage S H → Bool × Linkage S H
  unfolding set_wanna update_connect_jam update_last_received
  do_connected l =
      let c = set_wanna true (not (length l.conn.wbuffer == 0)) l.conn in
      let c' = update_connect_jam false (record c { action = idle }) in
      let (done, c'') = h.on_connected c' in
      (done, record { rx = update_last_received l.conn.now l.rx; conn = c'' })

  -- The branch of OnEventOnce() for a read that has delivered bytes.
  unfoldable pub after_received : Bool → ℤ × Linkage S H → Turned S H
  after_received more (pos zero, l) = record { ret = pos 1; next_action = shutdown; linkage = l }
  after_received more (pos (suc _), l) = record {
    ret = pos 1;
    next_action = if more then read else idle;
    linkage = l;
  }
  after_received more (negsuc _, l) = record { ret = minus_one; next_action = idle; linkage = l }

  unfoldable pub after_read : Reading × S → Linkage S H → Option (Turned S H)
  unfolding on_received after_received finish
  after_read (r, s) l =
      let l' = record l { conn = record l.conn { io = s } } in
      elim r.status [
        | ok ↦ on_received h (some r.bytes) (set_action idle l') >>= λ o.
            some (after_received r.more o)
        | status ↦ some (finish read status l')
      ]

  -- The branch for a write of `length` bytes.
  unfoldable pub after_written : ℕ → Status × ℕ × Conn S H → Linkage S H → Turned S H
  unfolding update_last_sent consume_sending_buffer finish is_incomplete
  after_written len (ok, n, c) l =
      let c' = record c { action = idle } in
      record {
        ret = pos 1;
        next_action = idle;
        linkage = record l {
          conn =
              if ltb n len
              then consume_sending_buffer n (update_last_sent true true c')
              else consume_sending_buffer len (update_last_sent true false c');
        };
      }
  after_written len (status, n, c) l =
      let c' = update_last_sent false true c in
      finish write status
        (record l { conn = if is_incomplete status then record c' { last_writing = len } else c' })

  -- The branch for a write, with what PickSendingBuffer() says.
  unfoldable pub picked : ℕ × Conn S H → Linkage S H → Turned S H
  unfolding io_write after_written
  picked (len, c) l =
      if not (len == 0) then after_written len (io_write io (take len c.wbuffer) c) l else record {
        ret = pos 1;
        next_action = if c.graceful then shutdown else idle;
        linkage = record l { conn = record c { action = idle } };
      }

  unfoldable pub written : Linkage S H → Turned S H
  written l = picked (pick_sending_buffer l.conn) l

  -- The branches for an accept and for a connect.
  unfoldable pub after_handshake : Action → Status × S → Linkage S H → Turned S H
  unfolding do_connected finish
  after_handshake action (ok, s) l =
      let (done, l') = do_connected (record l { conn = record l.conn { io = s; action = idle } }) in
      record { ret = if done then pos 1 else minus_one; next_action = idle; linkage = l' }
  after_handshake action (status, s) l =
      finish action status (record l { conn = record l.conn { io = s } })

  unfoldable pub after_shut : ℤ × Status × Conn S H → Linkage S H → Turned S H
  unfolding finish set_wanna_read
  after_shut (pos (suc _), status, c) l = finish shutdown status (record l { conn = c })
  after_shut (ret, status, c) l = record {
    ret = ret;
    next_action = idle;
    linkage = record l { conn = set_wanna_read true (record c { action = idle }) };
  }

  unfoldable pub on_event_once : Action → Linkage S H → Option (Turned S H)
  on_event_once read l = after_read (io.do_read l.conn.io) l
  on_event_once write l = some (written l)
  on_event_once accept l = some (after_handshake accept (io.do_accept l.conn.io) l)
  on_event_once connect l = some (after_handshake connect (io.do_connect l.conn.io) l)
  on_event_once shutdown l = some (after_shut (shut bug l.conn) l)
  on_event_once idle l = some (finish idle bug l)

  -- The `while (true)` of OnEvent().
  pub event_rounds : ℕ → Action → Linkage S H → Option (ℤ × Linkage S H)
  event_rounds zero action l = none
  event_rounds (suc f) action l = on_event_once action l >>= λ t. elim (is_idle t.next_action) [
    | true ↦ some (t.ret, t.linkage)
    | false ↦ event_rounds f t.next_action t.linkage
  ]

  -- Behind the loop: nothing in progress, so reading, and writing if there is something to write.
  unfoldable pub watch : ℤ × Linkage S H → ℤ × Linkage S H
  unfolding set_wanna is_idle
  watch (ret, l) = (
    ret,
    if is_idle l.conn.action
        then record l { conn = set_wanna true (not (length l.conn.wbuffer == 0)) l.conn }
        else l,
  )

  unfoldable pub on_event : ℕ → Action → Linkage S H → Option (ℤ × Linkage S H)
  on_event fuel idle_action l =
      let action = if is_idle l.conn.action then idle_action else l.conn.action in
      event_rounds fuel action l >>= λ r. some (watch r)

  unfoldable pub on_readable : ℕ → Linkage S H → Option (ℤ × Linkage S H)
  on_readable fuel l = on_event fuel read l

  unfoldable pub on_writable : ℕ → Linkage S H → Option (ℤ × Linkage S H)
  on_writable fuel l = on_event fuel write l

  unfoldable pub disconnect : ℕ → Bool → Linkage S H → Option (ℤ × Linkage S H)
  disconnect fuel finish_write l =
      let c = record l.conn { graceful = true } in
      let l' = record l { conn = if finish_write then c else dump_sending_buffer c } in
      if is_idle l.conn.action then on_event fuel shutdown l' else some (pos 1, l')
