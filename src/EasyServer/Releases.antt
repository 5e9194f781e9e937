-- ===== src/EasyServer/Releases.antt =====
-- ReleaseChannel() and Forget().
use flinter.Base.{
  ℕ, ◌+◌, ◌<◌, ◌≡◌, refl, true, false, ◌==◌, none, some, List, ◌∷◌, arith, Option-cases, Bool-cases,
  inl, inr,
}
use flinter.Base.Map.{find, erase, total, total-erase_found, erase_missing}
use flinter.EasyServer.{
  IoContext, EasyServer, Outgoing, is_outgoing, thread_of, sub_one, set_context, release_handler,
  release_channel, forget_handler, forget,
}
use flinter.EasyServer.Kept.{has, IsKept, unlink-IsKept, close-IsKept, forget-IsKept}
use flinter.EasyServer.Counts.{sum_to-bound, one_in, one_out, ins, outs}
use flinter.EasyServer.Books.{
  IsBooked, set_context-IsBooked, same-IsBooked, thread_of-bound, sub_one-pred,
}

-- The ends of ReleaseChannel().
module _ (c : ℕ) (s : EasyServer) (nonzero : (c == 0) ≡ false) where
  unlinked_context : IoContext
  unlinked_context = record (s.contexts (thread_of s.slots c)) {
    linkages = erase c (s.contexts (thread_of s.slots c)).linkages;
  }

  release-incoming :
      is_outgoing c ≡ false
      → release_channel c s
        ≡ some (
            set_context
              (thread_of s.slots c)
              unlinked_context
              (record s { incoming = sub_one s.incoming }))
  unfolding release_channel unlinked_context
  release-incoming o = rw (nonzero, o) refl

  release-known :
      {info : Outgoing}
      → is_outgoing c ≡ true
      → find c (s.contexts (thread_of s.slots c)).informations ≡ some info
      → release_channel c s
        ≡ some (
            set_context
              (thread_of s.slots c)
              unlinked_context
              (record s { outgoing = sub_one s.outgoing }))
  unfolding release_channel unlinked_context
  release-known o e = rw (nonzero, o, e, release_channel) refl

  release-forgotten :
      {h : ℕ}
      → is_outgoing c ≡ true
      → find c (s.contexts (thread_of s.slots c)).informations ≡ none
      → find c (s.contexts (thread_of s.slots c)).handlers ≡ some h
      → release_channel c s
        ≡ some (
            set_context
              (thread_of s.slots c)
              (record unlinked_context {
                handlers = erase c (s.contexts (thread_of s.slots c)).handlers;
              })
              (record s { outgoing = sub_one s.outgoing; deleted = h ∷ s.deleted }))
  unfolding release_channel unlinked_context
  release-forgotten o e f = rw (nonzero, o, e, release_channel, f, release_handler) refl

-- A linkage leaves its context, and its counter.
module _ (t c l : ℕ) (ioc : IoContext) (d : List ℕ) (s : EasyServer) (h : t < s.slots)
    (k : IsKept s.slots t ioc) (e : ioc.linkages ≡ erase c (s.contexts t).linkages)
    (f : find c (s.contexts t).linkages ≡ some l) (b : IsBooked s) where
  left_in :
      is_outgoing c ≡ false
      → IsBooked (set_context t ioc (record s { incoming = sub_one s.incoming; deleted = d }))
  unfolding ins outs
  left_in o =
      let links = (s.contexts t).linkages in
      let one : total one_in ioc.linkages + 1 ≡ ins (s.contexts t) =
        rw e (ground (arith, total-erase_found one_in c links f, o)) in
      let same : total one_out ioc.linkages ≡ outs (s.contexts t) =
        rw e (ground (arith, total-erase_found one_out c links f, o)) in
      let some_in : 0 < s.incoming =
        omega (arith, one, sum_to-bound s.slots t (λ u. ins (s.contexts u)) h, b.in_sum) in
      let pred = sub_one-pred s.incoming b.in_word some_in in
      set_context-IsBooked t ioc (sub_one s.incoming) s.outgoing d s h k (omega (arith, one, pred))
        (omega (arith, same)) (omega (arith, pred, b.in_word)) b.out_word
        (λ q. omega (arith, b.limit some_in, pred)) b

  left_out :
      is_outgoing c ≡ true
      → IsBooked (set_context t ioc (record s { outgoing = sub_one s.outgoing; deleted = d }))
  unfolding ins outs
  left_out o =
      let links = (s.contexts t).linkages in
      let one : total one_out ioc.linkages + 1 ≡ outs (s.contexts t) =
        rw e (ground (arith, total-erase_found one_out c links f, o)) in
      let same : total one_in ioc.linkages ≡ ins (s.contexts t) =
        rw e (ground (arith, total-erase_found one_in c links f, o)) in
      let some_out : 0 < s.outgoing =
        omega (arith, one, sum_to-bound s.slots t (λ u. outs (s.contexts u)) h, b.out_sum) in
      let pred = sub_one-pred s.outgoing b.out_word some_out in
      set_context-IsBooked t ioc s.incoming (sub_one s.outgoing) d s h k (omega (arith, same))
        (omega (arith, one, pred)) b.in_word (omega (arith, pred, b.out_word)) b.limit b

-- ReleaseChannel() of a linkage of the table finds the handler that it asserts.
pub release_channel-IsBooked :
    (c l : ℕ) (s : EasyServer)
    → find c (s.contexts (thread_of s.slots c)).linkages ≡ some l
    → IsBooked s
    → (s' : EasyServer) × ((release_channel c s ≡ some s') × IsBooked s')
unfolding unlinked_context has release_channel
release_channel-IsBooked c l s e k =
    let t = thread_of s.slots c in
    let ioc = s.contexts t in
    let h = thread_of-bound s.slots c k.threads in
    let p = k.contexts t h in
    elim (Bool-cases (c == 0)) [
      | inl zeroth ↦ (s, ((rw zeroth refl), k))
      | inr nonzero ↦ elim (Bool-cases (is_outgoing c)) [
        | inr incoming ↦ (
          _,
          (
            release-incoming c s nonzero incoming,
            left_in t c l _ s.deleted s h
                (unlink-IsKept s.slots t ioc p c (ground (arith, p.outward c, incoming))) refl e k
                incoming,
          ),
        )
        | inl outgoing ↦ elim (Option-cases (find c ioc.informations)) [
          | inr (info, known) ↦ (
            _,
            (
              release-known c s nonzero outgoing known,
              left_out t c l _ s.deleted s h
                  (unlink-IsKept s.slots t ioc p c (rw (known, outgoing) refl)) refl e k outgoing,
            ),
          )
          | inl forgotten ↦ elim (Option-cases (find c ioc.handlers)) [
            | inl lost ↦ absurd (ground (arith, p.kept c, lost, forgotten, outgoing, e))
            | inr (x, found) ↦ (
              _,
              (
                release-forgotten c s nonzero outgoing forgotten found,
                left_out t c l _ (x ∷ s.deleted) s h
                    ((rw (erase_missing c ioc.informations forgotten) at
                      (close-IsKept s.slots t ioc p c)))
                    refl e k outgoing,
              ),
            )
          ]
        ]
      ]
    ]

-- The ends of Forget().
forget-linked :
    {l : ℕ} (t c : ℕ) (ioc : IoContext) (s : EasyServer)
    → find c ioc.linkages ≡ some l
    → forget_handler t c ioc s ≡ set_context t ioc s
unfolding forget_handler
forget-linked t c ioc s e = rw (e, forget_handler) refl

forget-none :
    (t c : ℕ) (ioc : IoContext) (s : EasyServer)
    → find c ioc.linkages ≡ none
    → find c ioc.handlers ≡ none
    → forget_handler t c ioc s ≡ set_context t ioc s
unfolding forget_handler
forget-none t c ioc s e f = rw (e, f, forget_handler) refl

forget-last :
    {h : ℕ} (t c : ℕ) (ioc : IoContext) (s : EasyServer)
    → find c ioc.linkages ≡ none
    → find c ioc.handlers ≡ some h
    → forget_handler t c ioc s
      ≡ set_context t
          (record ioc { handlers = erase c ioc.handlers })
          (record s { deleted = h ∷ s.deleted })
unfolding forget_handler
forget-last t c ioc s e f = rw (e, f, forget_handler) refl

pub forget-IsBooked : (c : ℕ) (s : EasyServer) → IsBooked s → IsBooked (forget c s)
unfolding forget
forget-IsBooked c s k =
    let t = thread_of s.slots c in
    let ioc = s.contexts t in
    let h = thread_of-bound s.slots c k.threads in
    let p = k.contexts t h in
    let ioc' = record ioc { informations = erase c ioc.informations } in
    elim (Bool-cases (c == 0)) [
      | inl zeroth ↦ rw zeroth k
      | inr nonzero ↦ rw nonzero (elim (Option-cases (find c ioc.linkages)) [
        | inr (l, linked) ↦
            rw (forget-linked t c ioc' s linked)
              (same-IsBooked t ioc' s.deleted s h (forget-IsKept s.slots t ioc p c linked) refl k)
        | inl unlinked ↦
            let closed =
              (rw (erase_missing c ioc.linkages unlinked) at (close-IsKept s.slots t ioc p c)) in
            elim (Option-cases (find c ioc.handlers)) [
              | inr (x, found) ↦
                  rw (forget-last t c ioc' s unlinked found)
                    (same-IsBooked t _ (x ∷ s.deleted) s h closed refl k)
              | inl gone ↦ rw (forget-none t c ioc' s unlinked gone) (
                  same-IsBooked t ioc' s.deleted s h
                    (rw (erase_missing c ioc.handlers gone) at closed) refl k)
            ]
      ])
    ]
