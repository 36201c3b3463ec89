-- ===== src/Stream/Tests.antt =====
-- internal/stream/stream.go: runs of a stream of texts, and instances of its theorems.
use livekit_psrpc.Prelude.{
  ◌≡◌, ◌≢◌, refl, String, true, false, [], ◌∷◌, none, some, ok, nat_equality,
}
use livekit_psrpc.Errors.Codes
use livekit_psrpc.Errors.Value.{GoError, plain, psrpc}
use livekit_psrpc.Stream.State.{
  Stream, panics, next, new_stream, add_pending, set_closed, release, shut,
}
use livekit_psrpc.Stream.Steps.{
  begin_send, end_send, handle_ack, end_message, handle_close, begin_close, end_close,
  cancel_parent, ack_closed, context_done, step, send_begins, take_sender, message_ends,
  close_arrives, close_begins, err_slow_consumer,
}
use livekit_psrpc.Stream.Reach.{Reach, start, after, Reach-Inv, step_never_panics}
use livekit_psrpc.Stream.Invariant.{Inv}
use livekit_psrpc.Stream.Results.{first_cause}
use livekit_psrpc.Stream.Sending.{sending, answered, send_acknowledged, send_unacknowledged}

abbrev TextStream : Type 0
TextStream = Stream String String String

abbrev no_stream : TextStream
no_stream = record {
  closed = false;
  error = none;
  pending = 0;
  acks = [];
  next_ack = 0;
  acked = [];
  senders = [];
  receiver = none;
  recv_size = 1;
  recv = [];
  recv_closed = false;
  done = false;
  closing = false;
  registered = true;
  sent = [];
}

started : no_stream ≡ new_stream 1 []
unfolding new_stream
started = refl

no_stream-Reach : Reach no_stream
unfolding new_stream
no_stream-Reach = start 1 []

abbrev gone : GoError String
gone = psrpc (plain "gone") Codes.unavailable []

abbrev shut_stream : TextStream
shut_stream = record no_stream {
  closed = true;
  error = some gone;
  registered = false;
  done = true;
  recv_closed = true;
}

shutting : step (handle_close gone) no_stream ≡ next shut_stream none
unfolding step close_arrives set_closed shut
shutting = refl

shut_stream-Reach : Reach shut_stream
shut_stream-Reach = after (handle_close gone) no_stream shut_stream none no_stream-Reach shutting

sends : step (begin_send "r1" (ok "hello")) no_stream ≡ next (sending "r1" "hello" no_stream) none
unfolding step send_begins add_pending
sends = refl

sending-Reach : Reach (sending "r1" "hello" no_stream)
sending-Reach =
    after (begin_send "r1" (ok "hello")) no_stream (sending "r1" "hello" no_stream) none
      no_stream-Reach sends

-- The second of two messages finds the channel of size 1 full.
abbrev full_stream : TextStream
full_stream = record no_stream { pending = 1; recv = "one" ∷ []; receiver = some ("r2", "two") }

slow_run :
    step (end_message none) full_stream
    ≡ next (record no_stream { recv = "one" ∷ [] }) (some err_slow_consumer)
unfolding step message_ends release
slow_run = refl

step_never_panics_example : step (end_close none) shut_stream ≢ panics
step_never_panics_example = step_never_panics shut_stream (end_close none) shut_stream-Reach

Reach-Inv_example : Inv (sending "r1" "hello" no_stream)
Reach-Inv_example = Reach-Inv (sending "r1" "hello" no_stream) sending-Reach

again : step (begin_close none) shut_stream ≡ next shut_stream (some gone)
unfolding step close_begins set_closed
again = refl

first_cause_example : (shut_stream.closed ≡ true) × (shut_stream.error ≡ some gone)
first_cause_example =
    first_cause gone (begin_close none) shut_stream shut_stream (some gone) shut_stream-Reach
      (refl, refl) again

send_acknowledged_example :
    (step (begin_send "r1" (ok "hello")) no_stream ≡ next (sending "r1" "hello" no_stream) none)
    × (step (handle_ack "r1") (sending "r1" "hello" no_stream)
        ≡ next (answered "r1" "hello" no_stream) none)
    × ((left : TextStream) × (step (end_send 0 ack_closed) (answered "r1" "hello" no_stream)
          ≡ next left none)
        × (left.pending ≡ 0)
        × (left.senders ≡ []))
send_acknowledged_example = send_acknowledged no_stream "r1" "hello" no_stream-Reach (refl, refl)

send_unacknowledged_example :
    (step cancel_parent (sending "r1" "hello" no_stream)
      ≡ next (record (sending "r1" "hello" no_stream) { done = true }) none)
    × ((left : TextStream) × (step
            (end_send 0 context_done)
            (record (sending "r1" "hello" no_stream) { done = true })
          ≡ next left none))
unfolding take_sender
send_unacknowledged_example =
    send_unacknowledged (sending "r1" "hello" no_stream) 0 "r1" [] sending-Reach (refl, refl) refl
      refl
