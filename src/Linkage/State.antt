-- ===== src/Linkage/State.antt =====
-- The fields of class `Linkage` (flinter/linkage/linkage.h), in two records. The receiving half is
-- private to OnReceived() and DoReceived() but for the time of the last bytes; all that a handler
-- can reach from a callback is in the other half.
use flinter.Base.{ℕ, Bool, true, false, ◌==◌, if◌then◌else◌}
use flinter.Base.{Option, Bytes}
use flinter.Base.Int.{ℤ}
use flinter.Linkage.Io.{Action}

-- `_rbuffer`, `_rlength`, `_receive_jam`, `_last_received`.
pub record Receiver : Type 0 where
  pub rbuffer : Bytes
  pub rlength : ℕ
  pub receive_jam : ℕ
  pub last_received : ℕ

-- A linkage's entry in the event table of its worker: which events are watched.
pub record Client : Type 0 where
  pub running_r : Bool
  pub running_w : Bool

-- The other fields of `Linkage`, with the transport's state `io`, the entry `client` in the worker's
-- table, the state `app` behind the handler, and `now`, what get_monotonic_timestamp() gives.
pub record Conn (S H : Type 0) : Type 0 where
  pub wbuffer : Bytes
  pub last_writing : ℕ
  pub receive_timeout : ℕ
  pub connect_timeout : ℕ
  pub idle_timeout : ℕ
  pub send_timeout : ℕ
  pub connect_jam : ℕ
  pub send_jam : ℕ
  pub last_sent : ℕ
  pub action : Action
  pub worker : Option ℕ
  pub graceful : Bool
  pub closed : Bool
  pub io : S
  pub client : Option Client
  pub app : H
  pub now : ℕ

pub record Linkage (S H : Type 0) : Type 0 where
  pub rx : Receiver
  pub conn : Conn S H

-- The callbacks of class `LinkageHandler`. A callback may act on the linkage (send, disconnect), so
-- it takes the connection to the connection.
pub record LinkageHandler (S H : Type 0) : Type 0 where
  pub get_message_length : Conn S H → Bytes → ℤ
  pub on_message : Bytes → Conn S H → ℤ × Conn S H
  pub on_connected : Conn S H → Bool × Conn S H
  pub do_cleanup : Conn S H → Bool × Conn S H

-- `UpdateReceiveJam`: the time at which the message in hand began to wait for bytes.
unfoldable pub update_receive_jam : Bool → ℕ → Receiver → Receiver
update_receive_jam true now rx = record rx {
  receive_jam = if rx.receive_jam == 0 then now else rx.receive_jam;
}
update_receive_jam false now rx = record rx { receive_jam = 0 }

unfoldable pub update_last_received : ℕ → Receiver → Receiver
update_last_received now rx = record rx { last_received = now }
