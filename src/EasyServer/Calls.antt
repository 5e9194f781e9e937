-- ===== src/EasyServer/Calls.antt =====
-- The calls of an EasyServer, one after another, with its users and its workers.
use flinter.Base.{ℕ, ◌+◌, ◌<◌, ◌≡◌, Bool, Option, some, []}
use flinter.Base.Map.{find}
use flinter.EasyServer.{
  EasyServer, word, top, thread_of, accept_channel, release_channel, forget, connect_channel,
  send_channel, real_send,
}

-- Initialize(), for so many threads.
unfoldable pub new_server : ℕ → ℕ → EasyServer
new_server slots maximum = record {
  contexts = λ t. record { informations = []; handlers = []; linkages = []; channel = t };
  slots = slots;
  maximum = maximum;
  incoming = 0;
  outgoing = 0;
  deleted = [];
}

-- The numbers of a context do not reach 2^63, and no counter 2^64 - 1; a channel is released by the linkage
-- that is in the table for it.
pub data Step (s : EasyServer) : EasyServer → Type 0 where
  accept_step :
      (t : ℕ) (accepted : Bool) (l : ℕ)
      → t < s.slots
      → (s.contexts t).channel + s.slots < top
      → s.incoming + 1 < word
      → Step s (accept_channel t accepted l s).1
  connect_step :
      (t h : ℕ)
      → t < s.slots
      → (s.contexts t).channel + s.slots < top
      → Step s (connect_channel t h s).1
  release_step :
      {s' : EasyServer} (c l : ℕ)
      → find c (s.contexts (thread_of s.slots c)).linkages ≡ some l
      → release_channel c s ≡ some s'
      → Step s s'
  forget_step : (c : ℕ) → Step s (forget c s)
  send_step :
      (here : ℕ → Bool) (c : ℕ) (bytes : Bool) (made : Option ℕ)
      → s.outgoing + 1 < word
      → Step s (send_channel here c bytes made s).1
  real_send_step :
      (c : ℕ) (bytes : Bool) (made : Option ℕ)
      → s.outgoing + 1 < word
      → Step s (real_send c bytes made s).1

pub data Reach (slots maximum : ℕ) : EasyServer → Type 0 where
  start : Reach slots maximum (new_server slots maximum)
  after : {s s' : EasyServer} → Reach slots maximum s → Step s s' → Reach slots maximum s'
