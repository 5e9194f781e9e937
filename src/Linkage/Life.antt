-- ===== src/Linkage/Life.antt =====
-- The life of a linkage in flinter/linkage/linkage.cpp: the constructor, Attach(), Detach() and the
-- health check Cleanup(). Times are nanoseconds of the monotonic clock and timeouts are not
-- negative: then a difference that is negative in the source fails every test below, as 0 does.
pub mod Laws
use flinter.Base.{
  ℕ, suc, ◌-◌, ◌*◌, ◌^◌, Bool, true, false, not, ◌&&◌, ◌||◌, ◌==◌, ltb, leb, if◌then◌else◌, Option,
  none, some, [], ◌>>=◌,
}
use flinter.Base.Int.{ℤ, pos, negsuc}
use flinter.Linkage.Io.{Action, idle, AbstractIo, Setup}
use flinter.Linkage.State.{Client, Conn, Linkage, LinkageHandler}
use flinter.Linkage.Send.{is_idle, update_connect_jam}
use flinter.Linkage.Event.{do_connected, on_event}

-- kDefaultReceiveTimeout and its kin.
abbrev pub default_timeout : ℕ
default_timeout = 15 * 10 ^ 9

abbrev pub default_idle_timeout : ℕ
default_idle_timeout = 300 * 10 ^ 9

-- For how long something has been jammed; 0: it is not.
unfoldable pub jammed_for : ℕ → ℕ → ℕ
jammed_for jam now = if not (jam == 0) then now - jam else 0

unfoldable pub timed_out : ℕ → ℕ → Bool
timed_out timeout jam = not (timeout == 0) && (not (jam == 0) && leb timeout jam)

module _ {S H : Type 0} where
  -- The constructor, at the time `now`, over a transport and a handler.
  unfoldable pub create : S → H → ℕ → Linkage S H
  create s app now = record {
    rx = record { rbuffer = []; rlength = 0; receive_jam = 0; last_received = now };
    conn = record {
      wbuffer = [];
      last_writing = 0;
      receive_timeout = default_timeout;
      connect_timeout = default_timeout;
      idle_timeout = default_idle_timeout;
      send_timeout = default_timeout;
      connect_jam = 0;
      send_jam = 0;
      last_sent = now;
      action = idle;
      worker = none;
      graceful = false;
      closed = false;
      io = s;
      client = none;
      app = app;
      now = now;
    };
  }

  unfoldable pub idle_for : ℕ → Linkage S H → ℕ
  idle_for now l =
      let passed_w = now - l.conn.last_sent in
      let passed_r = now - l.rx.last_received in
      if ltb passed_r passed_w then passed_r else passed_w

  unfoldable pub idled_out : ℕ → Linkage S H → Bool
  unfolding idle_for
  idled_out now l = not (l.conn.idle_timeout == 0) && leb l.conn.idle_timeout (idle_for now l)

  -- DoAttach() and LinkageWorker::Attach(): a linkage already in the table stays as it is.
  unfoldable pub do_attach : Bool → Bool → Conn S H → Conn S H
  do_attach read_now write_now c = elim c.client [
    | some _ ↦ c
    | none ↦ record c { client = some (record { running_r = read_now; running_w = write_now }) }
  ]

  -- DoDetach() and LinkageWorker::Detach().
  unfoldable pub do_detach : Conn S H → Conn S H
  do_detach c = record c { client = none }

  unfoldable pub leave_worker : Linkage S H → Linkage S H
  unfolding do_detach
  leave_worker l = record l { conn = record (do_detach l.conn) { worker = none } }

  -- `worker` is null for `none`.
  unfoldable pub detach : Option ℕ → Linkage S H → Bool × Linkage S H
  detach none l = (false, l)
  detach (some w) l = elim l.conn.worker [
    | none ↦ (true, l)
    | some v ↦ if v == w then (true, leave_worker l) else (true, l)
  ]

module _ {S H : Type 0} (io : AbstractIo S) (h : LinkageHandler S H) where
  unfoldable pub cleanup : ℕ → Linkage S H → Bool × Linkage S H
  cleanup now l =
      if timed_out l.conn.connect_timeout (jammed_for l.conn.connect_jam now)
      then (false, l)
      else if timed_out l.conn.send_timeout (jammed_for l.conn.send_jam now)
      then (false, l)
      else if timed_out l.conn.receive_timeout (jammed_for l.rx.receive_jam now)
      then (false, l)
      else if idled_out now l
      then (false, l)
      else let (kept, c) = h.do_cleanup l.conn in (kept, record l { conn = c })

  -- The end of Attach() for an established connection.
  unfoldable pub attached : Linkage S H → Bool × Linkage S H
  attached l =
      let (done, l') = do_connected io h l in if done then (true, l') else (false, leave_worker l')

  -- The end of Attach() for a connection with an action to invoke at once.
  unfoldable pub attach_result : ℤ × Linkage S H → Bool × Linkage S H
  attach_result (pos (suc _), l) = (true, l)
  attach_result (_, l) = (false, leave_worker l)

  -- Attach() behind a successful Initialize().
  unfoldable pub attach_with : ℕ → ℕ → Setup → Linkage S H → Option (Bool × Linkage S H)
  attach_with fuel w setup l =
      let connecting = not (is_idle setup.action) || not (is_idle setup.next_action) in
      let c = do_attach (setup.want_read || not connecting) setup.want_write l.conn in
      let c' = record c { worker = some w } in
      if not connecting
      then some (attached (record l { conn = c' }))
      else if is_idle setup.action
      then some (
        true,
        record l { conn = record (update_connect_jam true c') { action = setup.next_action } },
      )
      else on_event io h fuel setup.action
          (record l { conn = record (update_connect_jam true c') { action = setup.action } })
        >>= λ r. some (attach_result r)

  unfoldable pub attach : ℕ → Option ℕ → Linkage S H → Option (Bool × Linkage S H)
  attach fuel none l = some (false, l)
  attach fuel (some w) l = elim l.conn.worker [
    | some v ↦ some (v == w, l)
    | none ↦
        let (setup, s) = io.do_initialize l.conn.io in
        let l' = record l { conn = record l.conn { io = s } } in
        elim setup [ none ↦ some (false, l') | some u ↦ attach_with fuel w u l' ]
  ]
