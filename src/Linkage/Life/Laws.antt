-- ===== src/Linkage/Life/Laws.antt =====
-- When a health check drops a linkage, and what a failed Attach() leaves behind.
use flinter.Base.{
  ℕ, ◌+◌, ◌<◌, ◌≤◌, ◌≡◌, ◌⊎◌, inl, inr, ◌↔◌, Bool, true, false, not, ◌||◌, ◌==◌, if◌then◌else◌,
  Option, none, some, ◌>>=◌, arith, Bool-cases, suc, zero,
}
use flinter.Base.Int.{ℤ, pos, negsuc}
use flinter.Linkage.Io.{AbstractIo, Setup}
use flinter.Linkage.State.{Linkage, LinkageHandler}
use flinter.Linkage.Send.{is_idle}
use flinter.Linkage.Life.{
  cleanup, timed_out, jammed_for, idled_out, attach, attach_with, attached, attach_result,
  leave_worker, do_detach,
}

-- Something that began at `since` has lasted for a timeout; 0 stands for never, in both.
abbrev pub Overdue : ℕ → ℕ → ℕ → Type 0
Overdue timeout since now = (0 < timeout) × (0 < since) × (since + timeout ≤ now)

timed_out_iff :
    (timeout since now : ℕ)
    → (timed_out timeout (jammed_for since now) ≡ true) ↔ Overdue timeout since now
unfolding timed_out jammed_for
timed_out_iff timeout since now = ground arith

module _ {S H : Type 0} where
  -- Connecting, writing or reading has stalled, or neither side has sent anything, for too long.
  abbrev pub IsOverdue : ℕ → Linkage S H → Type 0
  IsOverdue now l =
      Overdue l.conn.connect_timeout l.conn.connect_jam now
      ⊎ Overdue l.conn.send_timeout l.conn.send_jam now
      ⊎ Overdue l.conn.receive_timeout l.rx.receive_jam now
      ⊎ (0 < l.conn.idle_timeout)
        × (l.conn.last_sent + l.conn.idle_timeout ≤ now)
        × (l.rx.last_received + l.conn.idle_timeout ≤ now)

  idled_out_iff :
      (now : ℕ) (l : Linkage S H)
      → (idled_out now l ≡ true) ↔ (
          (0 < l.conn.idle_timeout)
          × (l.conn.last_sent + l.conn.idle_timeout ≤ now)
          × (l.rx.last_received + l.conn.idle_timeout ≤ now))
  unfolding idled_out
  idled_out_iff now l = ground arith

none_of : {A B C D : Type 0} → ¬ A → ¬ B → ¬ C → ¬ D → ¬ (A ⊎ B ⊎ C ⊎ D)
none_of a b c d (inl x) = a x
none_of a b c d (inr (inl x)) = b x
none_of a b c d (inr (inr (inl x))) = c x
none_of a b c d (inr (inr (inr x))) = d x

module _ {S H : Type 0} (io : AbstractIo S) (h : LinkageHandler S H) where
  -- The health check drops a linkage, with no change to it, if it is overdue by one of the
  -- timeouts for connecting, sending, receiving and being idle; the verdict on any other is the
  -- handler's, with the handler's changes.
  pub cleanup_cases :
      (now : ℕ) (l : Linkage S H)
      → IsOverdue now l × (cleanup io h now l ≡ (false, l))
        ⊎ (¬ IsOverdue now l)
          × (cleanup io h now l
              ≡ ((h.do_cleanup l.conn).0, record l { conn = (h.do_cleanup l.conn).1 }))
  unfolding cleanup
  cleanup_cases now l =
      elim (Bool-cases (timed_out l.conn.connect_timeout (jammed_for l.conn.connect_jam now))) [
        | inl a ↦ inl (inl (iff_a.0 a), rw a)
        | inr a ↦
            elim (Bool-cases (timed_out l.conn.send_timeout (jammed_for l.conn.send_jam now))) [
              | inl b ↦ inl (inr (inl (iff_b.0 b)), rw (a, b))
              | inr b ↦
                  elim (Bool-cases
                    (timed_out l.conn.receive_timeout (jammed_for l.rx.receive_jam now))) [
                      | inl c ↦ inl (inr (inr (inl (iff_c.0 c))), rw (a, b, c))
                      | inr c ↦ elim (Bool-cases (idled_out now l)) [
                        | inl d ↦ inl (inr (inr (inr ((idled_out_iff now l).0 d))), rw (a, b, c, d))
                        | inr d ↦ inr (
                          none_of (λ o. cc (a, iff_a.1 o)) (λ o. cc (b, iff_b.1 o))
                              (λ o. cc (c, iff_c.1 o)) (λ o. cc (d, (idled_out_iff now l).1 o)),
                          rw (a, b, c, d),
                        )
                      ]
                    ]
            ]
      ]
    where
      iff_a :
          (timed_out l.conn.connect_timeout (jammed_for l.conn.connect_jam now) ≡ true)
          ↔ Overdue l.conn.connect_timeout l.conn.connect_jam now
      iff_a = timed_out_iff l.conn.connect_timeout l.conn.connect_jam now

      iff_b :
          (timed_out l.conn.send_timeout (jammed_for l.conn.send_jam now) ≡ true)
          ↔ Overdue l.conn.send_timeout l.conn.send_jam now
      iff_b = timed_out_iff l.conn.send_timeout l.conn.send_jam now

      iff_c :
          (timed_out l.conn.receive_timeout (jammed_for l.rx.receive_jam now) ≡ true)
          ↔ Overdue l.conn.receive_timeout l.rx.receive_jam now
      iff_c = timed_out_iff l.conn.receive_timeout l.rx.receive_jam now

  attach_result_failed :
      (r : ℤ × Linkage S H) (l' : Linkage S H)
      → attach_result io h r ≡ (false, l')
      → (l'.conn.worker ≡ none) × (l'.conn.client ≡ none)
  unfolding attach_result leave_worker do_detach
  attach_result_failed (pos zero, l) l' e = ground arith
  attach_result_failed (pos (suc n), l) l' e = absurd (ground arith)
  attach_result_failed (negsuc n, l) l' e = ground arith

  attached_failed :
      (l l' : Linkage S H)
      → attached io h l ≡ (false, l')
      → (l'.conn.worker ≡ none) × (l'.conn.client ≡ none)
  unfolding attached leave_worker do_detach
  attached_failed l l' e = ground arith

  abbrev IsOut : Linkage S H → Type 0
  IsOut l = (l.conn.worker ≡ none) × (l.conn.client ≡ none)

  attach_result_bind :
      (o : Option (ℤ × Linkage S H)) (l' : Linkage S H)
      → (o >>= λ r. some (attach_result io h r)) ≡ some (false, l')
      → IsOut l'
  attach_result_bind none l' e = cc
  attach_result_bind (some r) l' e = attach_result_failed r l' (ground arith)

  attach_with_failed :
      (fuel w : ℕ) (u : Setup) (l l' : Linkage S H)
      → attach_with io h fuel w u l ≡ some (false, l')
      → IsOut l'
  unfolding attach_with
  attach_with_failed fuel w u l l' e =
      by_setup (not (is_idle u.action) || not (is_idle u.next_action)) (is_idle u.action) _ _ _ e
    where
      by_setup :
          (connecting waiting : Bool) (x y : Linkage S H) (o : Option (ℤ × Linkage S H))
          → (if not connecting
              then some (attached io h x)
              else if waiting
              then some (true, y)
              else o >>= λ r. some (attach_result io h r))
            ≡ some (false, l')
          → IsOut l'
      by_setup false waiting x y o e' = attached_failed x l' (ground arith)
      by_setup true true x y o e' = absurd (ground arith)
      by_setup true false x y o e' = attach_result_bind o l' e'

  -- Where a linkage has no worker and no entry in the event table, an Attach() that returns false
  -- leaves it without either.
  pub attach_failed :
      (fuel w : ℕ) (l l' : Linkage S H)
      → l.conn.worker ≡ none
      → l.conn.client ≡ none
      → attach io h fuel (some w) l ≡ some (false, l')
      → (l'.conn.worker ≡ none) × (l'.conn.client ≡ none)
  unfolding attach
  attach_failed fuel w l l' off out = by_worker l.conn.worker off
    where
      opened : Linkage S H
      opened = record l { conn = record l.conn { io = (io.do_initialize l.conn.io).1 } }

      by_setup :
          (u : Option Setup)
          → ◌≡◌ {A = Option (Bool × Linkage S H)}
              (elim u [ none ↦ some (false, opened) | some u' ↦ attach_with io h fuel w u' opened ])
              (some (false, l'))
          → IsOut l'
      by_setup none e = (ground arith, ground arith)
      by_setup (some u) e = attach_with_failed fuel w u opened l' e

      by_worker :
          (v : Option ℕ)
          → v ≡ none
          → ◌≡◌ {A = Option (Bool × Linkage S H)}
              (elim v [
                | some v' ↦ some (v' == w, l)
                | none ↦ elim (io.do_initialize l.conn.io).0 [
                  | none ↦ some (false, opened)
                  | some u ↦ attach_with io h fuel w u opened
                ]
              ])
              (some (false, l'))
          → IsOut l'
      by_worker none off' e = by_setup (io.do_initialize l.conn.io).0 e
      by_worker (some v) off' e = absurd (cc)
