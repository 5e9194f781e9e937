-- ===== src/EasyServer/Reconnects.antt =====
-- DoReconnect(), Send() and DoRealSend().
use flinter.Base.{
  ℕ, ◌+◌, ◌<◌, ◌≡◌, refl, Bool, true, false, ◌==◌, if◌then◌else◌, Option, none, some, arith,
  Option-cases, Bool-cases, inl, inr,
}
use flinter.Base.Map.{find, total-put_new}
use flinter.EasyServer.{
  EasyServer, Outgoing, Sending, word, is_outgoing, thread_of, reconnect, send_channel, send_made,
  real_send,
}
use flinter.EasyServer.Kept.{has, insert_new-put, link-IsKept, known-bound}
use flinter.EasyServer.Counts.{one_in, one_out, ins, outs}
use flinter.EasyServer.Books.{IsBooked, set_context-IsBooked, word-small, thread_of-bound}

-- A channel that is known is connected again.
pub reconnect-IsBooked :
    {info : Outgoing} (c : ℕ) (made : Option ℕ) (s : EasyServer)
    → find c (s.contexts (thread_of s.slots c)).linkages ≡ none
    → find c (s.contexts (thread_of s.slots c)).informations ≡ some info
    → s.outgoing + 1 < word
    → IsBooked s
    → IsBooked (reconnect c made s).1
unfolding reconnect ins outs has
reconnect-IsBooked c none s e f b k = k
reconnect-IsBooked c (some l) s e f b k =
    let t = thread_of s.slots c in
    let ioc = s.contexts t in
    let h = thread_of-bound s.slots c k.threads in
    let p = k.contexts t h in
    let o : is_outgoing c ≡ true = ground (arith, p.outward c, f) in
    let links = total-put_new one_in c l ioc.linkages p.sorted_l e in
    rw (word-small (s.outgoing + 1) b) (
      set_context-IsBooked t _ s.incoming (s.outgoing + 1) s.deleted s h
        (link-IsKept s.slots t ioc p c l e (rw (f, o) refl) (known-bound s.slots t c ioc p f) refl)
        (rw (insert_new-put c l ioc.linkages e) (ground (arith, links, o)))
        (rw (insert_new-put c l ioc.linkages e)
          (ground (arith, total-put_new one_out c l ioc.linkages p.sorted_l e, o)))
        k.in_word b k.limit k)

-- The branch of Send() that may connect again.
send_channel-unlinked :
    {info : Outgoing} (here : ℕ → Bool) (c : ℕ) (bytes : Bool) (made : Option ℕ) (s : EasyServer)
    → (c == 0) ≡ false
    → find c (s.contexts (thread_of s.slots c)).linkages ≡ none
    → is_outgoing c ≡ true
    → find c (s.contexts (thread_of s.slots c)).informations ≡ some info
    → send_channel here c bytes made s ≡ (
        if here info.thread_id
        then (send_made bytes (reconnect c made s).0, (reconnect c made s).1)
        else (Sending.job_for info.thread_id, s))
unfolding send_channel
send_channel-unlinked here c bytes made s z e o f = rw (z, e, o, f, send_channel) refl

-- In its other branches Send() changes nothing.
pub send_channel-IsBooked :
    (here : ℕ → Bool) (c : ℕ) (bytes : Bool) (made : Option ℕ) (s : EasyServer)
    → s.outgoing + 1 < word
    → IsBooked s
    → IsBooked (send_channel here c bytes made s).1
unfolding send_channel
send_channel-IsBooked here c bytes made s b k =
    let ioc = s.contexts (thread_of s.slots c) in
    elim (Bool-cases (c == 0)) [
      | inl zeroth ↦ rw zeroth k
      | inr nonzero ↦ elim (Option-cases (find c ioc.linkages)) [
        | inr (l, linked) ↦ rw (nonzero, linked, send_channel) k
        | inl unlinked ↦ elim (Bool-cases (is_outgoing c)) [
          | inr incoming ↦ rw (nonzero, unlinked, incoming, send_channel) k
          | inl outgoing ↦ elim (Option-cases (find c ioc.informations)) [
            | inl gone ↦ rw (nonzero, unlinked, outgoing, gone, send_channel) k
            | inr (info, known) ↦
                rw (send_channel-unlinked here c bytes made s nonzero unlinked outgoing known)
                  (elim (Bool-cases (here info.thread_id)) [
                    | inl at_once ↦ rw at_once (reconnect-IsBooked c made s unlinked known b k)
                    | inr later ↦ rw later k
                  ])
          ]
        ]
      ]
    ]

pub real_send-IsBooked :
    (c : ℕ) (bytes : Bool) (made : Option ℕ) (s : EasyServer)
    → s.outgoing + 1 < word
    → IsBooked s
    → IsBooked (real_send c bytes made s).1
unfolding real_send
real_send-IsBooked c bytes made s b k =
    let ioc = s.contexts (thread_of s.slots c) in
    elim (Bool-cases (c == 0)) [
      | inl zeroth ↦ rw zeroth k
      | inr nonzero ↦ elim (Option-cases (find c ioc.linkages)) [
        | inr (l, linked) ↦ rw (nonzero, linked, real_send) k
        | inl unlinked ↦ elim (Bool-cases (is_outgoing c)) [
          | inr incoming ↦ rw (nonzero, unlinked, incoming, real_send) k
          | inl outgoing ↦ elim (Option-cases (find c ioc.informations)) [
            | inl gone ↦ rw (nonzero, unlinked, outgoing, gone, real_send) k
            | inr (info, known) ↦
                rw (nonzero, unlinked, outgoing, known, real_send)
                  (reconnect-IsBooked c made s unlinked known b k)
          ]
        ]
      ]
    ]
