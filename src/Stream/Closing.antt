-- ===== src/Stream/Closing.antt =====
-- internal/stream/stream.go: the steps of closing, of a message and of a wait, case by case.
use livekit_psrpc.Prelude.{
  arith, ◌-◌, ◌≡◌, ◌≢◌, ◌⊎◌, inl, inr, refl, String, true, false, [], ◌∷◌, ◌++◌, Option, none, some,
  ◌==◌, nat_equality, ltb, length, Bool-cases,
}
use livekit_psrpc.Errors.Value.{GoError}
use livekit_psrpc.Stream.State.{
  stream_ack, stream_close, Stream, panics, blocked, next, set_closed, release, shut,
}
use livekit_psrpc.Stream.Steps.{
  message_ends, close_arrives, close_begins, close_ends, close_text, err_stream_closed,
  err_slow_consumer,
}
use livekit_psrpc.Stream.Opening.{IsOpen, IsClosed}

abbrev pub cause_of : {D : Type 0} → Option (GoError D) → GoError D
cause_of none = err_stream_closed
cause_of (some e) = e

module _ {B D V : Type 0} where
  pub release_lem :
      (s : Stream B D V) (r : Option (GoError D))
      → s.pending ≢ 0
      → release r s ≡ next (record s { pending = s.pending - 1 }) r
  unfolding release
  release_lem s r h = let counted : (s.pending == 0) ≡ false = ground arith in simp counted refl

  pub release_zero :
      (r : Option (GoError D)) (s : Stream B D V) → (s.pending == 0) ≡ true → release r s ≡ panics
  unfolding release
  release_zero r s h = simp h refl

  pub shut_lem :
      (s : Stream B D V) (r : Option (GoError D))
      → s.recv_closed ≡ false
      → shut r s ≡ next (record s { registered = false; done = true; recv_closed = true }) r
  unfolding shut
  shut_lem s r h = simp h refl

  pub close_arrives_busy :
      (s : Stream B D V) (busy : String × V) (cause : GoError D)
      → s.receiver ≡ some busy
      → close_arrives cause s ≡ blocked
  unfolding close_arrives
  close_arrives_busy s busy cause r = simp (r, close_arrives) refl

  pub close_arrives_closed :
      (s : Stream B D V) (cause e : GoError D)
      → IsClosed s e
      → s.receiver ≡ none
      → close_arrives cause s ≡ next s (some e)
  unfolding close_arrives set_closed
  close_arrives_closed s cause e (c, h) r = simp (c, h, r, close_arrives) refl

  pub close_arrives_open :
      (s : Stream B D V) (cause : GoError D)
      → IsOpen s
      → s.receiver ≡ none
      → s.recv_closed ≡ false
      → close_arrives cause s
        ≡ next
            (record s {
              closed = true;
              error = some cause;
              registered = false;
              done = true;
              recv_closed = true;
            })
            none
  unfolding close_arrives set_closed shut
  close_arrives_open s cause (c, h) r n = simp (c, h, r, n, close_arrives) refl

  pub close_begins_closed :
      (s : Stream B D V) (cause : Option (GoError D)) (e : GoError D)
      → IsClosed s e
      → close_begins cause s ≡ next s (some e)
  unfolding close_begins set_closed
  close_begins_closed s cause e (c, h) = simp (c, h, close_begins) refl

  pub close_begins_open :
      (s : Stream B D V) (cause : Option (GoError D))
      → IsOpen s
      → close_begins cause s
        ≡ next
            (record s {
              closed = true;
              error = some (cause_of cause);
              closing = true;
              sent =
                  s.sent
                  ++ stream_close (close_text (cause_of cause)).0 (close_text (cause_of cause)).1
                    ∷ [];
            })
            none
  unfolding close_begins set_closed
  close_begins_open s none (c, h) = simp (c, h, close_begins) refl
  close_begins_open s (some e) (c, h) = simp (c, h, close_begins) refl

  pub close_ends_wait :
      (s : Stream B D V) (r : Option (GoError D))
      → (s.closing ≡ false) ⊎ (s.pending ≢ 0)
      → close_ends r s ≡ blocked
  unfolding close_ends
  close_ends_wait s r (inl h) = simp (h, close_ends) refl
  close_ends_wait s r (inr h) =
      let counted : (s.pending == 0) ≡ false = ground arith in
      elim (Bool-cases s.closing) [
        | inl c ↦ simp (c, counted, close_ends) refl
        | inr c ↦ simp (c, close_ends) refl
      ]

  pub close_ends_lem :
      (s : Stream B D V) (r : Option (GoError D))
      → s.closing ≡ true
      → s.pending ≡ 0
      → s.recv_closed ≡ false
      → close_ends r s
        ≡ next (record s { closing = false; registered = false; done = true; recv_closed = true }) r
  unfolding close_ends shut
  close_ends_lem s r c p n = simp (c, p, n, close_ends) refl

  pub message_ends_idle :
      (s : Stream B D V) (r : Option (GoError D)) → s.receiver ≡ none → message_ends r s ≡ blocked
  unfolding message_ends
  message_ends_idle s r h = simp (h, message_ends) refl

  pub message_ends_room :
      (s : Stream B D V) (r : Option (GoError D)) (id : String) (v : V)
      → s.receiver ≡ some (id, v)
      → s.recv_closed ≡ false
      → s.pending ≢ 0
      → ltb (length s.recv) s.recv_size ≡ true
      → message_ends r s
        ≡ next
            (record s {
              receiver = none;
              recv = s.recv ++ v ∷ [];
              sent = s.sent ++ stream_ack id ∷ [];
              pending = s.pending - 1;
            })
            r
  unfolding message_ends release
  message_ends_room s r id v h n p room =
      let counted : (s.pending == 0) ≡ false = ground arith in
      simp (h, n, room, counted, message_ends) refl

  pub message_ends_slow :
      (s : Stream B D V) (r : Option (GoError D)) (id : String) (v : V)
      → s.receiver ≡ some (id, v)
      → s.recv_closed ≡ false
      → s.pending ≢ 0
      → ltb (length s.recv) s.recv_size ≡ false
      → message_ends r s
        ≡ next (record s { receiver = none; pending = s.pending - 1 }) (some err_slow_consumer)
  unfolding message_ends release
  message_ends_slow s r id v h n p full =
      let counted : (s.pending == 0) ≡ false = ground arith in
      simp (h, n, full, counted, message_ends) refl
