-- ===== src/Stream/State.antt =====
-- internal/stream/stream.go: `streamBase` with the calls that are under way on it, and what a step of
-- one of them comes to. No interceptors are given, so the handler is the base itself.
use livekit_psrpc.Prelude.{
  ℕ, ◌+◌, ◌-◌, String, Bool, true, false, List, [], ◌∷◌, Option, none, some, if◌then◌else◌, ◌==◌,
  nat_equality,
}
use livekit_psrpc.Errors.Codes.{ErrorCode}
use livekit_psrpc.Errors.Value.{GoError}

-- The bodies that an end sends.
pub data Body (B : Type 0) : Type 0 where
  stream_message : String → B → Body B
  stream_ack : String → Body B
  stream_close : String → ErrorCode → Body B

-- Ack channels are numbered as they are made, and `acked` are those that are closed. `senders` are the
-- calls of Send that wait, by their ack channel, `receiver` is the message that HandleStream works on,
-- and `closing` is a call of Close that waits for the pending calls.
pub record Stream (B D V : Type 0) : Type 0 where
  pub closed : Bool
  pub error : Option (GoError D)
  pub pending : ℕ
  pub acks : List (String × ℕ)
  pub next_ack : ℕ
  pub acked : List ℕ
  pub senders : List (ℕ × String)
  pub receiver : Option (String × V)
  pub recv_size : ℕ
  pub recv : List V
  pub recv_closed : Bool
  pub done : Bool
  pub closing : Bool
  pub registered : Bool
  pub sent : List (Body B)

-- A step panics, cannot be taken now, or leads to a state. An error in the last is what the call
-- returns; `none` is a nil error or a call that goes on.
pub data Outcome (B D V : Type 0) : Type 0 where
  panics : Outcome B D V
  blocked : Outcome B D V
  next : Stream B D V → Option (GoError D) → Outcome B D V

module _ {B D V : Type 0} where
  -- `NewStream`, with an ack channel for each request that waits for one.
  unfoldable pub new_stream : ℕ → List String → Stream B D V
  new_stream size [] = record {
    closed = false;
    error = none;
    pending = 0;
    acks = [];
    next_ack = 0;
    acked = [];
    senders = [];
    receiver = none;
    recv_size = size;
    recv = [];
    recv_closed = false;
    done = false;
    closing = false;
    registered = true;
    sent = [];
  }
  new_stream size (id ∷ ids) =
      let s = new_stream size ids in
      record s { acks = (id, s.next_ack) ∷ s.acks; next_ack = s.next_ack + 1 }

  unfoldable pub add_pending : Stream B D V → Stream B D V × Option (GoError D)
  add_pending s = (if s.closed then s else record s { pending = s.pending + 1 }, s.error)

  -- The error is nil if the stream was open.
  unfoldable pub set_closed : GoError D → Stream B D V → Stream B D V × Option (GoError D)
  set_closed cause s =
      if s.closed then (s, s.error) else (record s { closed = true; error = some cause }, none)

  -- `pending.Done()`: a negative counter panics.
  unfoldable pub release : Option (GoError D) → Stream B D V → Outcome B D V
  release r s = if s.pending == 0 then panics else next (record s { pending = s.pending - 1 }) r

  -- The end of both ways to close: closing a closed channel panics.
  unfoldable pub shut : Option (GoError D) → Stream B D V → Outcome B D V
  shut r s =
      if s.recv_closed
      then panics
      else next (record s { registered = false; done = true; recv_closed = true }) r
