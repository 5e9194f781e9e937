-- ===== src/EasyServer/Sends.antt =====
-- Send() and Disconnect() in the thread of the worker, against the jobs that they leave to the worker otherwise.
use flinter.Base.{
  ◌<◌, ℕ, ◌≡◌, refl, Bool, true, ◌==◌, Option, none, some, Bool-cases, Option-cases, inl, inr,
}
use flinter.Base.Map.{find}
use flinter.EasyServer.Calls.{Reach}
use flinter.EasyServer.Reached.{Reach-bound}
use flinter.EasyServer.{
  EasyServer, Outgoing, top, Sending, thread_of, is_outgoing, reconnect, Disconnecting,
  disconnect_channel, real_disconnect, send_channel, send_made, real_send,
}

unfoldable pub target : Sending → Option ℕ
target (Sending.send_on l) = some l
target Sending.refused = none
target Sending.nothing = none
target (Sending.job_for t) = none

target-send_made : (m : Option ℕ) → target (send_made true m) ≡ m
unfolding target send_made
target-send_made none = refl
target-send_made (some l) = refl

send_channel-real_send :
    (here : ℕ → Bool) (c : ℕ) (made : Option ℕ) (s : EasyServer)
    → here (thread_of s.slots c) ≡ true
    → ((info : Outgoing)
        → find c (s.contexts (thread_of s.slots c)).informations ≡ some info
        → info.thread_id ≡ thread_of s.slots c)
    → (target (send_channel here c true made s).0 ≡ (real_send c true made s).0)
      × ((send_channel here c true made s).1 ≡ (real_send c true made s).1)
unfolding target send_channel real_send
send_channel-real_send here c made s h own =
    let ioc = s.contexts (thread_of s.slots c) in
    elim (Bool-cases (c == 0)) [
      | inl zeroth ↦ rw zeroth (refl, refl)
      | inr nonzero ↦ elim (Option-cases (find c ioc.linkages)) [
        | inr (l, linked) ↦ rw (nonzero, linked, send_channel, real_send, h) (refl, refl)
        | inl unlinked ↦ elim (Bool-cases (is_outgoing c)) [
          | inr incoming ↦ rw (nonzero, unlinked, incoming, send_channel, real_send) (refl, refl)
          | inl outgoing ↦ elim (Option-cases (find c ioc.informations)) [
            | inl gone ↦
                rw (nonzero, unlinked, outgoing, gone, send_channel, real_send) (refl, refl)
            | inr (info, known) ↦
                rw (nonzero, unlinked, outgoing, known, send_channel, real_send, own info known, h)
                  (target-send_made (reconnect c made s).0, refl)
          ]
        ]
      ]
    ]

unfoldable pub disconnect_target : Disconnecting → Option ℕ
disconnect_target Disconnecting.unlinked = none
disconnect_target (Disconnecting.disconnect_on l) = some l
disconnect_target (Disconnecting.disconnect_job t) = none

disconnect_channel-real_disconnect :
    (here : ℕ → Bool) (c : ℕ) (s : EasyServer)
    → here (thread_of s.slots c) ≡ true
    → disconnect_target (disconnect_channel here c s) ≡ real_disconnect c s
unfolding disconnect_target disconnect_channel real_disconnect
disconnect_channel-real_disconnect here c s h = elim (Bool-cases (c == 0)) [
  | inl zeroth ↦ rw zeroth refl
  | inr nonzero ↦ elim (Option-cases (find c (s.contexts (thread_of s.slots c)).linkages)) [
    | inl gone ↦ rw (nonzero, gone, disconnect_channel) refl
    | inr (l, linked) ↦ rw (nonzero, linked, disconnect_channel, h) refl
  ]
]

-- With at least one thread and fewer than 2^63, in every order of the calls before, for bytes that are not empty and
-- a calling thread that runs the worker of the channel's thread: Send() and DoRealSend(), which a job runs for another thread, send on the same linkage, or none, and leave the same
-- server; and so do Disconnect() and DoRealDisconnect() disconnect the same linkage, or none.
pub call-job :
    {slots maximum : ℕ} {s : EasyServer}
    → 0 < slots
    → slots < top
    → Reach slots maximum s
    → (here : ℕ → Bool) (c : ℕ) (made : Option ℕ) → here (thread_of s.slots c) ≡ true
    → (target (send_channel here c true made s).0 ≡ (real_send c true made s).0)
      × (((send_channel here c true made s).1 ≡ (real_send c true made s).1)
          × (disconnect_target (disconnect_channel here c s) ≡ real_disconnect c s))
call-job {s = s} p q r here c made h =
    let (sent, left) = send_channel-real_send here c made s h (Reach-bound p q r c) in
    (sent, (left, disconnect_channel-real_disconnect here c s h))
