-- ===== src/EasyServer.antt =====
-- The channels of class EasyServer, flinter/linkage/easy_server.cpp and easy_server.h. A channel is a number
-- of 64 bits, of which the highest tells an outgoing one. Linkages and proxy handlers stand at addresses. What the system
-- does when it accepts or connects is an argument; a call holds the mutex of the context.
pub mod Calls
pub mod Kept
pub mod Counts
pub mod Books
pub mod Accepts
pub mod Releases
pub mod Reconnects
pub mod Reached
pub mod Sends
pub mod Jobs
mod Tests
use flinter.Base.{
  ℕ, zero, ◌+◌, ◌%◌, Bool, true, false, not, ◌==◌, leb, if◌then◌else◌, Option, none, some, List, [],
  ◌∷◌,
}
use flinter.Base.Map.{find, put, erase}

abbrev pub word : ℕ
word = 18446744073709551616

-- 0x8000000000000000.
abbrev pub top : ℕ
top = 9223372036854775808

-- The proxy handler of OutgoingInformation, and the thread that it is bound to.
pub record Outgoing : Type 0 where
  pub handler : ℕ
  pub thread_id : ℕ

pub record IoContext : Type 0 where
  pub informations : List (ℕ × Outgoing)
  pub handlers : List (ℕ × ℕ)
  pub linkages : List (ℕ × ℕ)
  pub channel : ℕ

-- The contexts by their thread, the number of threads, the most incoming connections, the two counters,
-- and the proxy handlers that were deleted.
pub record EasyServer : Type 0 where
  pub contexts : ℕ → IoContext
  pub slots : ℕ
  pub maximum : ℕ
  pub incoming : ℕ
  pub outgoing : ℕ
  pub deleted : List ℕ

-- IsOutgoingChannel(), and the bit that makes one.
unfoldable pub is_outgoing : ℕ → Bool
is_outgoing c = leb top c

unfoldable pub as_outgoing : ℕ → ℕ
as_outgoing c = if leb top c then c else c + top

-- GetThreadId().
unfoldable pub thread_of : ℕ → ℕ → ℕ
thread_of slots c = (c % top) % slots

-- SubAndFetch(1) of an unsigned counter.
unfoldable pub sub_one : ℕ → ℕ
sub_one n = (n + 18446744073709551615) % word

-- std::map::insert(), which leaves a key that is there.
unfoldable pub insert_new : {V : Type 0} → ℕ → V → List (ℕ × V) → List (ℕ × V)
insert_new k v l = elim (find k l) [ none ↦ put k v l | some _ ↦ l ]

unfoldable pub set_context : ℕ → IoContext → EasyServer → EasyServer
set_context t ioc s = record s { contexts = λ u. if t == u then ioc else s.contexts u }

-- AllocateChannel() of a context.
unfoldable pub allocate_channel : ℕ → Bool → IoContext → ℕ × IoContext
unfolding as_outgoing
allocate_channel slots is_incoming ioc =
    let c = (ioc.channel + slots) % word in
    (if is_incoming then c else as_outgoing c, record ioc { channel = c })

-- AllocateChannel() for a connection that a listener has accepted on the worker of thread `t`. `accepted` is what
-- Accepted() of the interface returns, and `l` the linkage that is created.
unfoldable pub accept_channel : ℕ → Bool → ℕ → EasyServer → Option ℕ × EasyServer
unfolding set_context sub_one
accept_channel t accepted l s =
    let inconn = (s.incoming + 1) % word in
    let (c, ioc) = allocate_channel s.slots true (s.contexts t) in
    if leb s.maximum inconn
    then (none, record s { incoming = sub_one inconn })
    else if accepted
    then (
      some c,
      set_context t (record ioc { linkages = insert_new c l ioc.linkages })
          (record s { incoming = inconn }),
    )
    else (none, set_context t ioc (record s { incoming = sub_one inconn }))

-- The end of ReleaseChannel() for an outgoing channel that is forgotten; `none` where the assertion fails.
unfoldable pub release_handler : ℕ → ℕ → IoContext → EasyServer → Option EasyServer
unfolding set_context
release_handler t c ioc s = elim (find c ioc.handlers) [
  | none ↦ none
  | some h ↦ some (
      set_context t (record ioc { handlers = erase c ioc.handlers })
        (record s { deleted = h ∷ s.deleted }))
]

-- ReleaseChannel().
unfoldable pub release_channel : ℕ → EasyServer → Option EasyServer
unfolding thread_of set_context sub_one release_handler
release_channel c s =
    let t = thread_of s.slots c in
    let ioc = record (s.contexts t) { linkages = erase c (s.contexts t).linkages } in
    if c == 0
    then some s
    else if is_outgoing c
    then elim (find c ioc.informations) [
      | some _ ↦ some (set_context t ioc (record s { outgoing = sub_one s.outgoing }))
      | none ↦ release_handler t c ioc (record s { outgoing = sub_one s.outgoing })
    ]
    else some (set_context t ioc (record s { incoming = sub_one s.incoming }))

-- Forget(), behind the erased information.
unfoldable pub forget_handler : ℕ → ℕ → IoContext → EasyServer → EasyServer
unfolding set_context
forget_handler t c ioc s = elim (find c ioc.linkages) [
  | some _ ↦ set_context t ioc s
  | none ↦ elim (find c ioc.handlers) [
    | none ↦ set_context t ioc s
    | some h ↦
        set_context t (record ioc { handlers = erase c ioc.handlers })
          (record s { deleted = h ∷ s.deleted })
  ]
]

unfoldable pub forget : ℕ → EasyServer → EasyServer
unfolding thread_of forget_handler
forget c s =
    let t = thread_of s.slots c in
    let ioc = s.contexts t in
    if c == 0
    then s
    else forget_handler t c (record ioc { informations = erase c ioc.informations }) s

-- Connect(), on the thread that it has chosen; `h` is the new proxy handler.
unfoldable pub connect_channel : ℕ → ℕ → EasyServer → ℕ × EasyServer
unfolding set_context insert_new
connect_channel t h s =
    let (c, ioc) = allocate_channel s.slots false (s.contexts t) in
    (
      c,
      set_context t
          (record ioc {
            handlers = insert_new c h ioc.handlers;
            informations = insert_new c (record { handler = h; thread_id = t }) ioc.informations;
          })
          s,
    )

-- DoReconnect(); `made` is the linkage, or none where the connection or its attach fails.
unfoldable pub reconnect : ℕ → Option ℕ → EasyServer → Option ℕ × EasyServer
unfolding thread_of set_context insert_new
reconnect c none s = (none, s)
reconnect c (some l) s =
    let t = thread_of s.slots c in
    let ioc = s.contexts t in
    (
      some l,
      set_context t (record ioc { linkages = insert_new c l ioc.linkages })
          (record s { outgoing = (s.outgoing + 1) % word }),
    )

-- What Send() does: nothing and false, nothing and true, a call of Send() of a linkage,
-- or a job for the worker of a thread.
pub data Sending : Type 0 where
  refused : Sending
  nothing : Sending
  send_on : ℕ → Sending
  job_for : ℕ → Sending

-- Behind DoReconnect().
unfoldable pub send_made : Bool → Option ℕ → Sending
send_made bytes none = Sending.refused
send_made bytes (some l) = if bytes then Sending.send_on l else Sending.nothing

-- Send(); `here` tells whether the calling thread runs the worker of a thread, `bytes` whether there is a buffer
-- that is not empty.
unfoldable pub send_channel : (ℕ → Bool) → ℕ → Bool → Option ℕ → EasyServer → Sending × EasyServer
unfolding thread_of is_outgoing reconnect send_made
send_channel here c bytes made s =
    let t = thread_of s.slots c in
    let ioc = s.contexts t in
    let (linkage, s') = reconnect c made s in
    if c == 0 then (Sending.refused, s) else elim (find c ioc.linkages) [
      | some l ↦ (
        if bytes then if here t then Sending.send_on l else Sending.job_for t else Sending.nothing,
        s,
      )
      | none ↦
          if is_outgoing c
          then elim (find c ioc.informations) [
            | none ↦ (Sending.nothing, s)
            | some info ↦
                if here info.thread_id
                then (send_made bytes linkage, s')
                else (Sending.job_for info.thread_id, s)
          ]
          else (Sending.nothing, s)
    ]

-- DoRealSend(), which gives the linkage to send on.
unfoldable pub real_send : ℕ → Bool → Option ℕ → EasyServer → Option ℕ × EasyServer
unfolding thread_of is_outgoing reconnect
real_send c bytes made s =
    let t = thread_of s.slots c in
    let ioc = s.contexts t in
    let (linkage, s') = reconnect c made s in
    if c == 0 then (none, s) else elim (find c ioc.linkages) [
      | some l ↦ (if bytes then some l else none, s)
      | none ↦
          if is_outgoing c
          then elim (find c ioc.informations) [
            | none ↦ (none, s)
            | some info ↦ (if bytes then linkage else none, s')
          ]
          else (none, s)
    ]

-- What Disconnect() does: nothing and true, a call of Disconnect() of a linkage, or a job for the worker of a thread.
pub data Disconnecting : Type 0 where
  unlinked : Disconnecting
  disconnect_on : ℕ → Disconnecting
  disconnect_job : ℕ → Disconnecting

-- Disconnect(), and DoRealDisconnect(), which gives the linkage to disconnect.
unfoldable pub disconnect_channel : (ℕ → Bool) → ℕ → EasyServer → Disconnecting
unfolding thread_of
disconnect_channel here c s =
    let t = thread_of s.slots c in
    if c == 0 then Disconnecting.unlinked else elim (find c (s.contexts t).linkages) [
      | none ↦ Disconnecting.unlinked
      | some l ↦ if here t then Disconnecting.disconnect_on l else Disconnecting.disconnect_job t
    ]

unfoldable pub real_disconnect : ℕ → EasyServer → Option ℕ
unfolding thread_of
real_disconnect c s = if c == 0 then none else find c (s.contexts (thread_of s.slots c)).linkages
