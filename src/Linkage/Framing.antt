-- ===== src/Linkage/Framing.antt =====
-- What OnReceived() of flinter/linkage/linkage.cpp is for, with no cached length and no second
-- buffer: a stream is cut into messages by GetMessageLength(), each is handed to OnMessage().
pub mod Append
use flinter.Base.{
  ℕ, zero, suc, ◌+◌, ◌<◌, ◌≤◌, ◌≡◌, ◌≢◌, refl, ltb, if◌then◌else◌, Option, none, some, Bytes, [],
  ◌∷◌, ◌++◌, length, take, drop, arith, Bool-cases, inl, inr,
}
use flinter.Base.Int.{ℤ, pos, negsuc}
use flinter.Linkage.State.{Conn, LinkageHandler}

-- The front of a stream: invalid, incomplete, or a message of that length.
pub data Frame : Type 0 where
  invalid : Frame
  incomplete : Frame
  message : ℕ → Frame

unfoldable pub frame : ℤ → ℕ → Frame
frame (negsuc _) len = invalid
frame (pos zero) len = incomplete
frame (pos (suc n)) len = if ltb len (suc n) then incomplete else message (suc n)

-- The verdict on a stream: the result, what is left, and the connection then.
pub record Delivery (S H : Type 0) : Type 0 where
  pub ret : ℤ
  pub rest : Bytes
  pub conn : Conn S H

-- One message: a verdict, or on behind the message.
pub data Turn (S H : Type 0) : Type 0 where
  stop : Delivery S H → Turn S H
  go : ℕ → Conn S H → Turn S H

module _ {S H : Type 0} (h : LinkageHandler S H) where
  unfoldable pub replied : ℕ → Bytes → ℤ × Conn S H → Turn S H
  replied n b (pos (suc _), c) = go n c
  replied n b (pos zero, c) = stop (record { ret = pos 0; rest = b; conn = c })
  replied n b (negsuc _, c) = stop (record { ret = negsuc 0; rest = b; conn = c })

  unfoldable pub turned : Frame → Bytes → Conn S H → Turn S H
  unfolding replied
  turned invalid b c = stop (record { ret = negsuc 0; rest = b; conn = c })
  turned incomplete b c = stop (record { ret = pos 1; rest = b; conn = c })
  turned (message n) b c = replied n b (h.on_message (take n b) c)

  unfoldable pub turn : Bytes → Conn S H → Turn S H
  turn b c = turned (frame (h.get_message_length c b) (length b)) b c

  -- `none`: out of fuel.
  unfoldable pub deliver_within : ℕ → Bytes → Conn S H → Option (Delivery S H)
  deliver_within zero b c = none
  deliver_within (suc f) [] c = some (record { ret = pos 1; rest = []; conn = c })
  deliver_within (suc f) (x ∷ b) c = elim (turn (x ∷ b) c) [
    | stop d ↦ some d
    | go n c' ↦ deliver_within f (drop n (x ∷ b)) c'
  ]

  abbrev pub deliver : Bytes → Conn S H → Option (Delivery S H)
  deliver b = deliver_within (suc (length b)) b

  -- What linkage_handler.h asks of GetMessageLength(): a verdict on the first bytes (a length, or
  -- that they are invalid) is the verdict on every longer buffer, in every state.
  pub record IsFraming : Type 0 where
    pub settled :
        (c c' : Conn S H) (b d : Bytes)
        → h.get_message_length c b ≢ pos 0
        → h.get_message_length c' (b ++ d) ≡ h.get_message_length c b

-- The four ways in which a length can compare with the bytes at hand.
pub data FrameCase (z : ℤ) (len : ℕ) : Type 0 where
  is_invalid : (m : ℕ) → z ≡ negsuc m → FrameCase z len
  is_unknown : z ≡ pos 0 → FrameCase z len
  is_short : (n : ℕ) → z ≡ pos (suc n) → len < suc n → FrameCase z len
  is_whole : (n : ℕ) → z ≡ pos (suc n) → suc n ≤ len → FrameCase z len

pub frame_cases : (z : ℤ) (len : ℕ) → FrameCase z len
frame_cases (negsuc m) len = is_invalid m refl
frame_cases (pos zero) len = is_unknown refl
frame_cases (pos (suc n)) len = elim (Bool-cases (ltb len (suc n))) [
  | inl short ↦ is_short n refl (ground arith)
  | inr long ↦ is_whole n refl (ground arith)
]

-- The three kinds of answer of OnMessage().
pub data ReplyCase {S H : Type 0} (r : ℤ × Conn S H) : Type 0 where
  goes_on : (n : ℕ) (c : Conn S H) → r ≡ (pos (suc n), c) → ReplyCase r
  hangs_up : (c : Conn S H) → r ≡ (pos 0, c) → ReplyCase r
  fails : (n : ℕ) (c : Conn S H) → r ≡ (negsuc n, c) → ReplyCase r

pub reply_cases : {S H : Type 0} (r : ℤ × Conn S H) → ReplyCase r
reply_cases (pos (suc n), c) = goes_on n c refl
reply_cases (pos zero, c) = hangs_up c refl
reply_cases (negsuc n, c) = fails n c refl
