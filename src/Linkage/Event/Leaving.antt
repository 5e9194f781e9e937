-- ===== src/Linkage/Event/Leaving.antt =====
-- What Disconnect() of flinter/linkage/linkage.cpp leaves behind.
use flinter.Base.{Bool, true, if◌then◌else◌}
use flinter.Base.Int.{ℤ}
use flinter.Linkage.Io.{bug, AbstractIo}
use flinter.Linkage.State.{LinkageHandler, Linkage}
use flinter.Linkage.Send.{dump_sending_buffer}
use flinter.Linkage.Event.{after_shut, shut, watch}

module _ {S H : Type 0} (io : AbstractIo S) (h : LinkageHandler S H) where
  -- The result of a Disconnect() that finds no action in progress.
  closing : Linkage S H → ℤ × Linkage S H
  closing l = let t = after_shut io h (shut io h bug l.conn) l in watch io h (t.ret, t.linkage)

  -- The linkage once Disconnect() has marked it.
  leaving : Bool → Linkage S H → Linkage S H
  leaving fw l =
      let c = record l.conn { graceful = true } in
      record l { conn = if fw then c else dump_sending_buffer c }
