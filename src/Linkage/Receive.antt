-- ===== src/Linkage/Receive.antt =====
-- OnReceived() and DoReceived() of flinter/linkage/linkage.cpp: messages are cut from the stream.
-- The loop of DoReceived() takes at least one byte a round, so its fuel is one more than the length
-- of its buffer; `none` is a loop that ran out of fuel.
pub mod Loop
pub mod Refines
pub mod Chunks
pub mod Total
use flinter.Base.{
  ℕ, zero, suc, ◌+◌, ◌-◌, ◌≤◌, Bool, true, false, not, ◌&&◌, ◌==◌, ltb, leb, if◌then◌else◌, Option,
  none, some, Bytes, [], ◌∷◌, ◌++◌, length, take, drop, ◌>>=◌,
}
use flinter.Base.Int.{ℤ, pos, negsuc}
use flinter.Linkage.State.{
  Receiver, Conn, Linkage, LinkageHandler, update_receive_jam, update_last_received,
}

-- How one round of the loop ends: the loop is left with a result, or goes on behind the message.
pub data Round (S H : Type 0) : Type 0 where
  leave : ℤ → Receiver → Conn S H → Round S H
  next : ℕ → Receiver → Conn S H → Round S H

-- What DoReceived() returns, with `*consumed`.
pub record Outcome (S H : Type 0) : Type 0 where
  pub ret : ℤ
  pub consumed : ℕ
  pub rx : Receiver
  pub conn : Conn S H

abbrev pub minus_one : ℤ
minus_one = negsuc 0

module _ {S H : Type 0} (h : LinkageHandler S H) where
  -- The message at the front is complete: lines 479 to 500.
  unfoldable pub dispatch : ℤ × Conn S H → Receiver → Round S H
  dispatch (negsuc _, c) rx = leave minus_one rx c
  dispatch (pos zero, c) rx = leave (pos 0) rx c
  dispatch (pos (suc _), c) rx = next rx.rlength (record rx { rlength = 0 }) c

  unfoldable pub process : Bytes → Receiver → Conn S H → Round S H
  unfolding dispatch update_receive_jam
  process ptr rx c =
      if ltb (length ptr) rx.rlength
      then leave (pos 1) (update_receive_jam true c.now rx) c
      else dispatch (h.on_message (take rx.rlength ptr) c) (update_receive_jam false c.now rx)

  unfoldable pub measured : ℤ → Bytes → Receiver → Conn S H → Round S H
  unfolding process
  measured (negsuc _) ptr rx c = leave minus_one rx c
  measured (pos zero) ptr rx c = leave (pos 1) (update_receive_jam true c.now rx) c
  measured (pos (suc n)) ptr rx c = process ptr (record rx { rlength = suc n }) c

  unfoldable pub round : Bytes → Receiver → Conn S H → Round S H
  unfolding measured
  round ptr rx c =
      if rx.rlength == 0 then measured (h.get_message_length c ptr) ptr rx c else process ptr rx c

  pub rounds : ℕ → Bytes → ℕ → Receiver → Conn S H → Option (Outcome S H)
  rounds zero ptr k rx c = none
  rounds (suc f) [] k rx c = some (record { ret = pos 1; consumed = k; rx = rx; conn = c })
  rounds (suc f) (x ∷ ptr) k rx c = elim (round (x ∷ ptr) rx c) [
    | leave ret rx' c' ↦ some (record { ret = ret; consumed = k; rx = rx'; conn = c' })
    | next n rx' c' ↦ rounds f (drop n (x ∷ ptr)) (k + n) rx' c'
  ]

  unfoldable pub do_received : Bytes → Receiver → Conn S H → Option (Outcome S H)
  unfolding rounds round
  do_received buffer rx c = rounds (suc (length buffer)) buffer 0 rx c

  -- What is left of a buffer goes to the end of `_rbuffer`, where DoReceived() returned 1.
  unfoldable pub keep_rest : Bytes → Outcome S H → ℤ × Linkage S H
  keep_rest buffer o = elim o.ret [
    | pos (suc _) ↦ (
      pos 1,
      record {
        rx =
            if o.consumed == length buffer
            then o.rx
            else record o.rx { rbuffer = o.rx.rbuffer ++ drop o.consumed buffer };
        conn = o.conn;
      },
    )
    | _ ↦ (o.ret, record { rx = o.rx; conn = o.conn })
  ]

  -- No buffer moving: lines 384 to 393.
  unfoldable pub received_direct : Bytes → Receiver → Conn S H → Option (ℤ × Linkage S H)
  unfolding do_received keep_rest
  received_direct buffer rx c = do o ← do_received buffer rx c; some (keep_rest buffer o)

  -- Behind the message that filled `_rbuffer` up: lines 409 to 424.
  unfoldable pub received_behind : Bytes → ℕ → Outcome S H → Option (ℤ × Linkage S H)
  unfolding do_received keep_rest
  received_behind buffer last o = elim o.ret [
    | pos (suc _) ↦
        let rest = drop (o.consumed - last) buffer in
        let rx = record o.rx { rbuffer = [] } in
        if length rest == 0
        then some (pos 1, record { rx = rx; conn = o.conn })
        else received_direct rest rx o.conn
    | _ ↦ some (o.ret, record { rx = o.rx; conn = o.conn })
  ]

  -- The message in `_rbuffer` is completed: lines 396 to 424.
  unfoldable pub received_exact : Bytes → Receiver → Conn S H → Option (ℤ × Linkage S H)
  unfolding do_received received_behind
  received_exact buffer rx c = do
    let last = length rx.rbuffer
    let filled = rx.rbuffer ++ take (rx.rlength - last) buffer
    o ← do_received (take rx.rlength filled) (record rx { rbuffer = filled }) c
    received_behind buffer last o

  unfoldable pub drop_consumed : Outcome S H → ℤ × Linkage S H
  drop_consumed o = elim o.ret [
    | pos (suc _) ↦ (
      pos 1,
      record { rx = record o.rx { rbuffer = drop o.consumed o.rx.rbuffer }; conn = o.conn },
    )
    | _ ↦ (o.ret, record { rx = o.rx; conn = o.conn })
  ]

  -- All the buffer is moved: lines 427 to 441.
  unfoldable pub received_moved : Bytes → Receiver → Conn S H → Option (ℤ × Linkage S H)
  unfolding do_received drop_consumed
  received_moved buffer rx c = do
    let moved = rx.rbuffer ++ buffer
    o ← do_received moved (record rx { rbuffer = moved }) c
    some (drop_consumed o)

  unfoldable pub received : Bytes → Receiver → Conn S H → Option (ℤ × Linkage S H)
  unfolding received_direct received_exact received_moved
  received buffer rx c =
      if length rx.rbuffer == 0
      then received_direct buffer rx c
      else if not (rx.rlength == 0) && leb rx.rlength (length rx.rbuffer + length buffer)
      then received_exact buffer rx c
      else received_moved buffer rx c

  -- `none` is a null pointer for the buffer.
  unfoldable pub on_received : Option Bytes → Linkage S H → Option (ℤ × Linkage S H)
  unfolding received update_last_received
  on_received none l = some (minus_one, l)
  on_received (some buffer) l =
      let rx = update_last_received l.conn.now l.rx in
      if length buffer == 0
      then some (pos 1, l)
      else if l.conn.graceful
      then some (pos 1, record l { rx = rx })
      else received buffer rx l.conn
