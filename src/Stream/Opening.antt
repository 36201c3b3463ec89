-- ===== src/Stream/Opening.antt =====
-- internal/stream/stream.go: what the calls do on a stream that is open and on one that is closed.
use livekit_psrpc.Prelude.{
  arith, ◌+◌, ◌-◌, ◌≡◌, refl, String, true, false, [], ◌∷◌, ◌++◌, none, some, Result, ok, err, ◌==◌,
  nat_equality, string_equality, insert,
}
use livekit_psrpc.Errors.Codes
use livekit_psrpc.Errors.Value.{GoError, psrpc}
use livekit_psrpc.Stream.State.{
  stream_message, Stream, blocked, next, add_pending, set_closed, release,
}
use livekit_psrpc.Stream.Steps.{send_begins, message_begins}

module _ {B D V : Type 0} where
  -- The error is set exactly when the stream is closed.
  abbrev pub IsOpen : Stream B D V → Type 0
  IsOpen s = (s.closed ≡ false) × (s.error ≡ none)

  abbrev pub IsClosed : Stream B D V → GoError D → Type 0
  IsClosed s e = (s.closed ≡ true) × (s.error ≡ some e)

  pub add_pending_open :
      (s : Stream B D V) → IsOpen s → add_pending s ≡ (record s { pending = s.pending + 1 }, none)
  unfolding add_pending
  add_pending_open s (c, e) = simp (c, e) refl

  pub add_pending_closed :
      (s : Stream B D V) (e : GoError D) → IsClosed s e → add_pending s ≡ (s, some e)
  unfolding add_pending
  add_pending_closed s e (c, h) = simp (c, h) refl

  pub set_closed_open :
      (s : Stream B D V) (cause : GoError D)
      → IsOpen s
      → set_closed cause s ≡ (record s { closed = true; error = some cause }, none)
  unfolding set_closed
  set_closed_open s cause (c, e) = simp c refl

  pub set_closed_closed :
      (s : Stream B D V) (cause e : GoError D) → IsClosed s e → set_closed cause s ≡ (s, some e)
  unfolding set_closed
  set_closed_closed s cause e (c, h) = simp (c, h) refl

  pub send_begins_closed :
      (s : Stream B D V) (e : GoError D) (id : String) (encoded : Result (GoError D) B)
      → IsClosed s e
      → send_begins id encoded s ≡ next s (some e)
  unfolding send_begins add_pending
  send_begins_closed s e id encoded (c, h) = simp (c, h) refl

  pub send_begins-ok :
      (s : Stream B D V) (id : String) (b : B)
      → IsOpen s
      → send_begins id (ok b) s
        ≡ next
            (record s {
              pending = s.pending + 1;
              acks = insert id s.next_ack s.acks;
              next_ack = s.next_ack + 1;
              senders = (s.next_ack, id) ∷ s.senders;
              sent = s.sent ++ stream_message id b ∷ [];
            })
            none
  unfolding send_begins add_pending
  send_begins-ok s id b (c, h) = simp (c, h) refl

  pub send_begins-err :
      (s : Stream B D V) (id : String) (e : GoError D)
      → IsOpen s
      → send_begins id (err e) s
        ≡ next
            (record s { pending = s.pending + 1 - 1 })
            (some (psrpc e Codes.malformed_request []))
  unfolding send_begins add_pending release
  send_begins-err s id e (c, h) =
      let counted : (s.pending + 1 == 0) ≡ false = ground arith in simp (c, h, counted) refl

  pub message_begins_busy :
      (s : Stream B D V) (busy : String × V) (id : String) (decoded : Result (GoError D) V)
      → s.receiver ≡ some busy
      → message_begins id decoded s ≡ blocked
  unfolding message_begins
  message_begins_busy s busy id decoded r = simp (r, message_begins) refl

  pub message_begins_closed :
      (s : Stream B D V) (e : GoError D) (id : String) (decoded : Result (GoError D) V)
      → IsClosed s e
      → s.receiver ≡ none
      → message_begins id decoded s ≡ next s (some e)
  unfolding message_begins add_pending
  message_begins_closed s e id decoded (c, h) r = simp (c, h, r, message_begins) refl

  pub message_begins-ok :
      (s : Stream B D V) (id : String) (v : V)
      → IsOpen s
      → s.receiver ≡ none
      → message_begins id (ok v) s
        ≡ next (record s { pending = s.pending + 1; receiver = some (id, v) }) none
  unfolding message_begins add_pending
  message_begins-ok s id v (c, h) r = simp (c, h, r, message_begins) refl

  pub message_begins-err :
      (s : Stream B D V) (id : String) (e : GoError D)
      → IsOpen s
      → s.receiver ≡ none
      → message_begins id (err e) s
        ≡ next
            (record s { pending = s.pending + 1 - 1 })
            (some (psrpc e Codes.malformed_request []))
  unfolding message_begins add_pending release
  message_begins-err s id e (c, h) r =
      let counted : (s.pending + 1 == 0) ≡ false = ground arith in
      simp (c, h, r, counted, message_begins) refl
