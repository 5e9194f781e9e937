-- ===== src/Linkage/Tests.antt =====
-- A small transport and a small protocol, with runs of the code of flinter/linkage/linkage.cpp.
use mathlib.Core.List.{flatten}
use flinter.Base.{
  ℕ, zero, suc, ◌^◌, ◌<◌, ◌≡◌, ◌≢◌, ◌⊎◌, inl, refl, ap, true, false, Option, none, some, Bytes,
  List, [], ◌∷◌, ◌++◌, length, length-take, take, arith, codes,
}
use flinter.Base.Int.{ℤ, pos}
use flinter.Linkage.Io.{ok, jammed, closed, idle, read, AbstractIo, Reading}
use flinter.Linkage.State.{Conn, LinkageHandler, Linkage}
use flinter.Linkage.Framing.{deliver_within, IsFraming}
use flinter.Linkage.Receive.{on_received}
use flinter.Linkage.Receive.Chunks.{feed, feed-Refines, Stays, IsIdle}
use flinter.Linkage.Receive.Refines.{Refines, received-Refines}
use flinter.Linkage.Receive
use mathlib.Core.Option
use flinter.Linkage.Send.{send}
use flinter.Linkage.Send.Stream.{IsHonest, Sent, send-Sent, stream}
use flinter.Linkage.Send.Bound.{send-Fits, Fits}
use flinter.Linkage.Event.{written, on_event}
use flinter.Linkage.Event.Stream.{written-stream}
use flinter.Linkage.Event.Ends.{Drains, on_event_ends}
use flinter.Linkage.Life.{create, cleanup, attach}
use flinter.Linkage.Life.Laws.{IsOverdue, cleanup_cases, attach_failed}

-- What was written, and the pieces that are there to read.
record Wire : Type 0 where
  log : Bytes
  inbox : List Bytes

abbrev next_piece : List Bytes → Bytes → Reading × Wire
next_piece [] log =
    (record { status = jammed; bytes = []; more = false }, record { log = log; inbox = [] })
next_piece (b ∷ []) log =
    (record { status = ok; bytes = b; more = false }, record { log = log; inbox = [] })
next_piece (b ∷ b' ∷ bs) log =
    (record { status = ok; bytes = b; more = true }, record { log = log; inbox = b' ∷ bs })

-- Three bytes are taken at a time.
abbrev wire : AbstractIo Wire
wire = record {
  do_initialize = λ s. (
    some (record { action = idle; next_action = idle; want_read = false; want_write = false }),
    s,
  );
  do_read = λ s. next_piece s.inbox s.log;
  do_write = λ b s. (ok, length (take 3 b), record s { log = s.log ++ take 3 b });
  do_shutdown = λ s. (closed, s);
  do_connect = λ s. (ok, s);
  do_accept = λ s. (ok, s);
}

-- A message begins with its length, at most 200; 0 never ends.
abbrev measure : Bytes → ℤ
measure [] = pos 0
measure (n ∷ b) = pos n

abbrev protocol : LinkageHandler Wire (List Bytes)
protocol = record {
  get_message_length = λ c b. measure b;
  on_message = λ b c. (pos 1, record c { app = c.app ++ b ∷ [] });
  on_connected = λ c. (true, c);
  do_cleanup = λ c. (true, c);
}

abbrev fresh : Linkage Wire (List Bytes)
fresh = create (record { log = []; inbox = [] }) [] 7

take_taken : (k : ℕ) (b : Bytes) → take (length (take k b)) b ≡ take k b
take_taken zero b = refl
take_taken (suc k) [] = refl
take_taken (suc k) (x ∷ b) = ap (◌∷◌ x) (take_taken k b)

wire-IsHonest : IsHonest wire (λ s. s.log)
wire-IsHonest = record {
  wrote = λ b s s' n e. (ground (arith, length-take 3 b), ground (arith, take_taken 3 b));
  kept = λ b s s' n status e bad. absurd (ground arith);
}

measure-append : (b d : Bytes) → measure b ≢ pos 0 → measure (b ++ d) ≡ measure b
measure-append [] d h = absurd (h refl)
measure-append (x ∷ b) d h = refl

protocol-IsFraming : IsFraming protocol
protocol-IsFraming = record { settled = λ c c' b d. measure-append b d }

protocol-Stays : Stays protocol
protocol-Stays b c e = e

fresh-IsIdle : IsIdle protocol fresh
unfolding create deliver_within
fresh-IsIdle = record {
  pending = record { cached = inl refl; short = inl refl };
  quiet = refl;
  open_ = refl;
}

abbrev pieces : List Bytes
pieces = (3 ∷ 65 ∷ []) ∷ (66 ∷ 2 ∷ 67 ∷ 4 ∷ []) ∷ (68 ∷ []) ∷ []

feed-Refines_example :
    Refines protocol (fresh.rx.rbuffer ++ flatten pieces) fresh.conn (feed protocol pieces fresh)
feed-Refines_example =
    feed-Refines protocol pieces fresh protocol-IsFraming protocol-Stays fresh-IsIdle

received-Refines_example :
    Refines protocol
      (fresh.rx.rbuffer ++ (2 ∷ 9 ∷ 5 ∷ []))
      fresh.conn
      (Receive.received protocol (2 ∷ 9 ∷ 5 ∷ []) fresh.rx fresh.conn)
received-Refines_example =
    received-Refines protocol (2 ∷ 9 ∷ 5 ∷ []) fresh.rx fresh.conn protocol-IsFraming
      (fresh-IsIdle.pending)

-- Three pieces, three messages.
three_messages :
    Option.map (λ (r : ℤ × Linkage Wire (List Bytes)). r.1.conn.app) (feed protocol pieces fresh)
    ≡ some ((3 ∷ 65 ∷ 66 ∷ []) ∷ (2 ∷ 67 ∷ []) ∷ [])
unfolding create feed on_received
three_messages = refl

attached_conn : Conn Wire (List Bytes)
unfolding create
attached_conn = record fresh.conn { worker = some 1 }

send-Sent_example :
    Sent (λ s. s.log) (codes "hello") attached_conn (send wire (some (codes "hello")) attached_conn)
unfolding attached_conn
send-Sent_example =
    send-Sent (λ s. s.log) wire (codes "hello") attached_conn wire-IsHonest (omega arith)

send-Fits_example : Fits (send wire (some (codes "hello")) attached_conn).1
unfolding attached_conn
send-Fits_example = send-Fits wire (some (codes "hello")) attached_conn (omega arith)

-- Five bytes: three are written and two are queued.
hello_queued :
    ((send wire (some (codes "hello")) attached_conn).1.io.log ≡ codes "hel")
    × ((send wire (some (codes "hello")) attached_conn).1.wbuffer ≡ codes "lo")
unfolding attached_conn send
hello_queued = (refl, refl)

queued : Linkage Wire (List Bytes)
unfolding attached_conn
queued = record fresh { conn = record attached_conn { wbuffer = codes "world" } }

written-stream_example :
    stream (λ s. s.log) (written wire protocol queued).linkage.conn
    ≡ stream (λ s. s.log) queued.conn
written-stream_example = written-stream wire protocol (λ s. s.log) queued wire-IsHonest

wire-Drains : Drains wire protocol (λ s. length s.inbox)
wire-Drains = record { read_drains = λ s. drains s.inbox s.log; message_keeps = λ b c. omega arith }
  where
    drains :
        (bs : List Bytes) (log : Bytes)
        → (next_piece bs log).0.more ≡ true
        → length (next_piece bs log).1.inbox < length bs
    drains [] log e = cc
    drains (b ∷ []) log e = cc
    drains (b ∷ b' ∷ bs) log e = omega arith

abbrev arriving : Linkage Wire (List Bytes)
arriving = record fresh { conn = record fresh.conn { io = record { log = []; inbox = pieces } } }

on_event_ends_example :
    (r : ℤ × Linkage Wire (List Bytes)) × (on_event wire protocol 6 read arriving ≡ some r)
unfolding create
on_event_ends_example =
    on_event_ends wire protocol (λ s. length s.inbox) wire-Drains 6 read arriving (omega arith)

cleanup_cases_example :
    IsOverdue (10 ^ 12) fresh × (cleanup wire protocol (10 ^ 12) fresh ≡ (false, fresh))
    ⊎ (¬ IsOverdue (10 ^ 12) fresh) × (cleanup wire protocol (10 ^ 12) fresh ≡ (true, fresh))
unfolding create
cleanup_cases_example = cleanup_cases wire protocol (10 ^ 12) fresh

-- A transport that cannot be initialised.
abbrev broken_wire : AbstractIo Wire
broken_wire = record wire { do_initialize = λ s. (none, s) }

attach_failed_example : (fresh.conn.worker ≡ none) × (fresh.conn.client ≡ none)
unfolding create attach
attach_failed_example = attach_failed broken_wire protocol 1 1 fresh fresh refl refl refl
