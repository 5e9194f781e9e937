-- ===== src/EasyServer/Accepts.antt =====
-- New channels: AllocateChannel() for an accepted connection, and Connect().
use flinter.Base.{
  ℕ, ◌+◌, ◌<◌, ◌≡◌, refl, Bool, true, false, leb, none, some, arith, Bool-cases, inl, inr,
}
use flinter.Base.Map.{total-put_new}
use flinter.EasyServer.{
  IoContext, EasyServer, word, top, insert_new, set_context, accept_channel, connect_channel,
}
use flinter.EasyServer.Kept.{
  has, insert_new-put, allocate_channel-next, next_number-IsNew, link-IsKept, advance-IsKept,
  connect-IsKept,
}
use flinter.EasyServer.Counts.{one_in, one_out, ins, outs}
use flinter.EasyServer.Books.{
  IsBooked, set_context-IsBooked, same-IsBooked, sub_one-suc, word-small,
}

-- The three ends of AllocateChannel(), where no number is too large.
module _ (t l : ℕ) (s : EasyServer) (b : (s.contexts t).channel + s.slots < top)
    (w : s.incoming + 1 < word) where
  advanced : IoContext
  advanced = record (s.contexts t) { channel = (s.contexts t).channel + s.slots }

  accept-full :
      (accepted : Bool)
      → leb s.maximum (s.incoming + 1) ≡ true
      → accept_channel t accepted l s ≡ (none, s)
  unfolding accept_channel
  accept-full accepted full =
      rw (word-small (s.incoming + 1) w, full, sub_one-suc s.incoming (omega (arith, w))) refl

  accept-failed :
      leb s.maximum (s.incoming + 1) ≡ false
      → accept_channel t false l s ≡ (none, set_context t advanced s)
  unfolding accept_channel advanced
  accept-failed room =
      rw
        (
          word-small (s.incoming + 1) w,
          room,
          sub_one-suc s.incoming (omega (arith, w)),
          allocate_channel-next s.slots true (s.contexts t) b,
        )
        refl

  accept-made :
      leb s.maximum (s.incoming + 1) ≡ false
      → let c = (s.contexts t).channel + s.slots in
        accept_channel t true l s ≡ (
          some c,
          set_context t
              (record advanced { linkages = insert_new c l (s.contexts t).linkages })
              (record s { incoming = s.incoming + 1 }),
        )
  unfolding accept_channel advanced
  accept-made room =
      rw (word-small (s.incoming + 1) w, room, allocate_channel-next s.slots true (s.contexts t) b)
        refl

pub accept_channel-IsBooked :
    (t : ℕ) (accepted : Bool) (l : ℕ) (s : EasyServer)
    → t < s.slots
    → (s.contexts t).channel + s.slots < top
    → s.incoming + 1 < word
    → IsBooked s
    → IsBooked (accept_channel t accepted l s).1
unfolding advanced ins outs has
accept_channel-IsBooked t accepted l s h b w k =
    elim (Bool-cases (leb s.maximum (s.incoming + 1))) [
      | inl full ↦ rw (accept-full t l s b w accepted full) k
      | inr room ↦ by_accepted accepted room
    ]
  where
    by_accepted :
        (a : Bool) → leb s.maximum (s.incoming + 1) ≡ false → IsBooked (accept_channel t a l s).1
    by_accepted false room =
        rw (accept-failed t l s b w room)
          (same-IsBooked t _ s.deleted s h (advance-IsKept s.slots t _ (k.contexts t h) b) refl k)
    by_accepted true room =
        let ioc = s.contexts t in
        let (m, (o, (thread, (no_i, no_l)))) =
          next_number-IsNew s.slots t true ioc (k.contexts t h) k.threads b in
        let c = ioc.channel + s.slots in
        let p = k.contexts t h in
        rw (accept-made t l s b w room) (
          set_context-IsBooked t _ (s.incoming + 1) s.outgoing s.deleted s h
            (link-IsKept s.slots t (record ioc { channel = c }) (advance-IsKept s.slots t ioc p b) c
              l no_l (rw (no_i, o) refl) (omega (arith, m)) thread)
            (rw (insert_new-put c l ioc.linkages no_l)
              (ground (arith, total-put_new one_in c l ioc.linkages p.sorted_l no_l, o)))
            (rw (insert_new-put c l ioc.linkages no_l)
              (ground (arith, total-put_new one_out c l ioc.linkages p.sorted_l no_l, o)))
            w k.out_word (λ q. ground (arith, room)) k)

connect_channel-made :
    (t h : ℕ) (s : EasyServer)
    → (s.contexts t).channel + s.slots < top
    → let ioc = s.contexts t in
      let c = ioc.channel + s.slots + top in
      connect_channel t h s ≡ (
        c,
        set_context t
            (record ioc {
              channel = ioc.channel + s.slots;
              handlers = insert_new c h ioc.handlers;
              informations = insert_new c (record { handler = h; thread_id = t }) ioc.informations;
            })
            s,
      )
unfolding connect_channel
connect_channel-made t h s b = rw (allocate_channel-next s.slots false (s.contexts t) b) refl

pub connect_channel-IsBooked :
    (t h : ℕ) (s : EasyServer)
    → t < s.slots
    → (s.contexts t).channel + s.slots < top
    → IsBooked s
    → IsBooked (connect_channel t h s).1
connect_channel-IsBooked t h s g b k =
    let ioc = s.contexts t in
    let p = k.contexts t g in
    let c = ioc.channel + s.slots + top in
    let (m, (o, (thread, (no_i, no_l)))) = next_number-IsNew s.slots t false ioc p k.threads b in
    rw (connect_channel-made t h s b) (
      same-IsBooked t _ s.deleted s g
        (connect-IsKept s.slots t (record ioc { channel = ioc.channel + s.slots })
          (advance-IsKept s.slots t ioc p b) c h _ no_i no_l o (omega (arith, m)) thread refl)
        refl k)
