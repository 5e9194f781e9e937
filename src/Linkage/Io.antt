-- ===== src/Linkage/Io.antt =====
-- flinter/linkage/abstract_io.h: the interface between a linkage and its transport (a plain file
-- descriptor or a TLS session). `S` is the state of the transport.
use flinter.Base.{ℕ, Bool, Option, Bytes}

pub data Status : Type 0 where
  ok bug error jammed closed wanna_read wanna_write : Status

pub data Action : Type 0 where
  idle read write accept connect shutdown : Action

-- What `Read` hands back: the status, the bytes and the flag `more`.
pub record Reading : Type 0 where
  pub status : Status
  pub bytes : Bytes
  pub more : Bool

-- What `Initialize` sets: the action to invoke at once, the one to invoke at the next event, and
-- the events to watch.
pub record Setup : Type 0 where
  pub action : Action
  pub next_action : Action
  pub want_read : Bool
  pub want_write : Bool

pub record AbstractIo (S : Type 0) : Type 0 where
  pub do_initialize : S → Option Setup × S
  pub do_read : S → Reading × S
  pub do_write : Bytes → S → Status × ℕ × S
  pub do_shutdown : S → Status × S
  pub do_connect : S → Status × S
  pub do_accept : S → Status × S
