-- ===== src/Stream/Steps.antt =====
-- internal/stream/stream.go: Send, HandleStream and Close, cut where another goroutine may come in
-- between. What the adapter's Send, the encoding and the decoding answer is given.
use livekit_psrpc.Prelude.{
  ℕ, ◌+◌, String, true, false, List, [], ◌∷◌, ◌++◌, Option, none, some, Result, ok, err,
  if◌then◌else◌, ◌==◌, nat_equality, string_equality, ltb, length, insert, lookup, delete, elem,
}
use livekit_psrpc.Errors.Codes.{ErrorCode}
use livekit_psrpc.Errors.Codes
use livekit_psrpc.Errors.Value.{GoError, psrpc, as_psrpc, message, new_errorf}
use livekit_psrpc.Exchange.Call.{err_request_timed_out}
use livekit_psrpc.Stream.State.{
  stream_message, stream_ack, stream_close, Stream, Outcome, panics, blocked, next, add_pending,
  set_closed, release, shut,
}

-- Why a call of Send stops waiting.
pub data Wake (D : Type 0) : Type 0 where
  failed : GoError D → Wake D
  ack_closed : Wake D
  context_done : Wake D

pub data Event (B D V : Type 0) : Type 0 where
  begin_send : String → Result (GoError D) B → Event B D V
  end_send : ℕ → Wake D → Event B D V
  handle_ack : String → Event B D V
  begin_message : String → Result (GoError D) V → Event B D V
  end_message : Option (GoError D) → Event B D V
  handle_close : GoError D → Event B D V
  begin_close : Option (GoError D) → Event B D V
  end_close : Option (GoError D) → Event B D V
  take : Event B D V
  cancel_parent : Event B D V

module _ {D : Type 0} where
  unfoldable pub err_stream_closed : GoError D
  unfolding new_errorf
  err_stream_closed = new_errorf Codes.canceled "stream closed"

  unfoldable pub err_slow_consumer : GoError D
  unfolding new_errorf
  err_slow_consumer = new_errorf Codes.unavailable "stream message discarded by slow consumer"

  -- The text and the code of a StreamClose.
  unfoldable pub close_text : GoError D → String × ErrorCode
  unfolding as_psrpc message
  close_text cause = elim (as_psrpc cause) [
    | some e ↦ (message e.error, e.code)
    | none ↦ (message cause, Codes.unknown)
  ]

-- The first waiting call with an ack channel, and the others.
unfoldable pub take_sender : ℕ → List (ℕ × String) → Option (String × List (ℕ × String))
take_sender chan [] = none
take_sender chan ((c, id) ∷ senders) =
    let rest = take_sender chan senders in
    if c == chan
    then some (id, senders)
    else elim rest [ none ↦ none | some (found, others) ↦ some (found, (c, id) ∷ others) ]

module _ {B D V : Type 0} where
  unfoldable pub send_begins : String → Result (GoError D) B → Stream B D V → Outcome B D V
  unfolding add_pending release
  send_begins id encoded s =
      let (added, closed) = add_pending s in
      elim closed [
        | some e ↦ next added (some e)
        | none ↦ elim encoded [
          | err e ↦ release (some (psrpc e Codes.malformed_request [])) added
          | ok b ↦
              next
                (record added {
                  acks = insert id added.next_ack added.acks;
                  next_ack = added.next_ack + 1;
                  senders = (added.next_ack, id) ∷ added.senders;
                  sent = added.sent ++ stream_message id b ∷ [];
                })
                none
        ]
      ]

  unfoldable pub woken : ℕ → Wake D → Stream B D V → Stream B D V → Outcome B D V
  unfolding release err_request_timed_out
  woken chan (failed e) s left = release (some e) left
  woken chan ack_closed s left = if elem chan s.acked then release none left else blocked
  woken chan context_done s left =
      release (if s.done then s.error else some err_request_timed_out) left

  unfoldable pub send_ends : ℕ → Wake D → Stream B D V → Outcome B D V
  unfolding take_sender woken
  send_ends chan wake s = elim (take_sender chan s.senders) [
    | none ↦ blocked
    | some (id, others) ↦ woken chan wake s (record s { acks = delete id s.acks; senders = others })
  ]

  unfoldable pub ack_arrives : String → Stream B D V → Outcome B D V
  ack_arrives id s = elim (lookup id s.acks) [
    | none ↦ next s none
    | some chan ↦
        if elem chan s.acked
        then panics
        else next (record s { acks = delete id s.acks; acked = chan ∷ s.acked }) none
  ]

  -- On a message that cannot be decoded the code also starts a goroutine that calls Close, which is
  -- then a step of its own.
  unfoldable pub message_begins : String → Result (GoError D) V → Stream B D V → Outcome B D V
  unfolding add_pending release
  message_begins id decoded s = elim s.receiver [
    | some busy ↦ blocked
    | none ↦
        let (added, closed) = add_pending s in
        elim closed [
          | some e ↦ next added (some e)
          | none ↦ elim decoded [
            | err e ↦ release (some (psrpc e Codes.malformed_request [])) added
            | ok v ↦ next (record added { receiver = some (id, v) }) none
          ]
        ]
  ]

  unfoldable pub message_ends : Option (GoError D) → Stream B D V → Outcome B D V
  unfolding release err_slow_consumer
  message_ends ack_failed s = elim s.receiver [
    | none ↦ blocked
    | some (id, v) ↦
        if s.recv_closed
        then panics
        else (if ltb (length s.recv) s.recv_size
            then release ack_failed (record s {
              receiver = none;
              recv = s.recv ++ v ∷ [];
              sent = s.sent ++ stream_ack id ∷ [];
            })
            else release (some err_slow_consumer) (record s { receiver = none }))
  ]

  -- A Stream_Close from the other end. HandleStream is called for one message after the other.
  unfoldable pub close_arrives : GoError D → Stream B D V → Outcome B D V
  unfolding set_closed shut
  close_arrives cause s = elim s.receiver [
    | some busy ↦ blocked
    | none ↦
        let (marked, closed) = set_closed cause s in
        elim closed [ some e ↦ next marked (some e) | none ↦ shut none marked ]
  ]

  unfoldable pub close_begins : Option (GoError D) → Stream B D V → Outcome B D V
  unfolding set_closed close_text err_stream_closed
  close_begins cause s =
      let why : GoError D = elim cause [ none ↦ err_stream_closed | some e ↦ e ] in
      let (marked, closed) = set_closed why s in
      elim closed [
        | some e ↦ next marked (some e)
        | none ↦
            let (text, code) = close_text why in
            next
              (record marked { closing = true; sent = marked.sent ++ stream_close text code ∷ [] })
              none
      ]

  -- The rest of Close waits for the pending calls.
  unfoldable pub close_ends : Option (GoError D) → Stream B D V → Outcome B D V
  unfolding shut
  close_ends send_failed s =
      if s.closing
      then (if s.pending == 0 then shut send_failed (record s { closing = false }) else blocked)
      else blocked

  unfoldable pub taken : Stream B D V → Outcome B D V
  taken s = elim s.recv [ [] ↦ blocked | v ∷ vs ↦ next (record s { recv = vs }) none ]

  unfoldable pub step : Event B D V → Stream B D V → Outcome B D V
  unfolding send_begins send_ends ack_arrives message_begins message_ends close_arrives close_begins
      close_ends taken
  step (begin_send id encoded) s = send_begins id encoded s
  step (end_send chan wake) s = send_ends chan wake s
  step (handle_ack id) s = ack_arrives id s
  step (begin_message id decoded) s = message_begins id decoded s
  step (end_message ack_failed) s = message_ends ack_failed s
  step (handle_close cause) s = close_arrives cause s
  step (begin_close cause) s = close_begins cause s
  step (end_close send_failed) s = close_ends send_failed s
  step take s = taken s
  step cancel_parent s = next (record s { done = true }) none
