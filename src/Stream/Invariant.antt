-- ===== src/Stream/Invariant.antt =====
-- internal/stream/stream.go: what holds of a stream between the steps of its calls.
use livekit_psrpc.Prelude.{
  ℕ, ◌+◌, ◌≤◌, ◌≡◌, ◌⊎◌, inl, inr, sym, ap, ◌∙◌, subst, String, true, false, List, Option, none,
  some, Result, ok, err, nat_equality, string_equality, length, lookup, lookup-insert, Bool-cases,
  Option-cases, arith,
}
use livekit_psrpc.Errors.Value.{GoError}
use livekit_psrpc.Stream.State.{Stream, Outcome, panics, blocked, next}
use livekit_psrpc.Stream.Steps.{send_begins, message_begins}
use livekit_psrpc.Stream.Opening.{
  IsOpen, IsClosed, send_begins_closed, send_begins-ok, send_begins-err, message_begins_busy,
  message_begins_closed, message_begins-ok, message_begins-err,
}
use livekit_psrpc.Stream.Acks.{AreSound, added-AreSound}

-- The call of HandleStream that is under way, if any.
abbrev pub busy : {A : Type 0} → Option A → ℕ
busy none = 0
busy (some a) = 1

abbrev pub looks : List (String × ℕ) → String → Option ℕ
looks acks id = lookup id acks

module _ {B D V : Type 0} where
  -- The pending calls are those under way; an error is set exactly when the stream is closed; a Close
  -- that waits has closed the stream; the channel of received messages is closed only on a closed
  -- stream with no Close that waits and no message that is worked on, and is not overfull; and the ack
  -- channels are sound.
  pub record Inv (s : Stream B D V) : Type 0 where
    pub counted : s.pending ≡ length s.senders + busy s.receiver
    pub status : IsOpen s ⊎ ((e : GoError D) × IsClosed s e)
    pub waits_closed : s.closing ≡ true → s.closed ≡ true
    pub shut_closed : s.recv_closed ≡ true → s.closed ≡ true
    pub shut_alone : s.recv_closed ≡ true → s.closing ≡ false
    pub shut_idle : s.recv_closed ≡ true → s.receiver ≡ none
    pub room : length s.recv ≤ s.recv_size
    pub acks_sound : AreSound (looks s.acks) s.next_ack s.acked

  -- A step that does not panic, and leads to such a state.
  abbrev pub Safe : Outcome B D V → Type 0
  Safe panics = ⊥
  Safe blocked = Unit
  Safe (next s r) = Inv s

  pub not_shut : (s : Stream B D V) → Inv s → s.closed ≡ false → s.recv_closed ≡ false
  not_shut s v c = elim (Bool-cases s.recv_closed) [
    | inl h ↦ absurd (let both : false ≡ true = sym c ∙ v.shut_closed h in cc)
    | inr h ↦ h
  ]

  pub not_waiting : (s : Stream B D V) → Inv s → s.closed ≡ false → s.closing ≡ false
  not_waiting s v c = elim (Bool-cases s.closing) [
    | inl h ↦ absurd (let both : false ≡ true = sym c ∙ v.waits_closed h in cc)
    | inr h ↦ h
  ]

  send_opened :
      (s : Stream B D V) (id : String) (encoded : Result (GoError D) B)
      → Inv s
      → IsOpen s
      → Safe (send_begins id encoded s)
  send_opened s id (err e) v h = subst Safe (sym (send_begins-err s id e h)) (record {
    counted = let count = v.counted in omega arith;
    status = v.status;
    waits_closed = v.waits_closed;
    shut_closed = v.shut_closed;
    shut_alone = v.shut_alone;
    shut_idle = v.shut_idle;
    room = v.room;
    acks_sound = v.acks_sound;
  })
  send_opened s id (ok b) v h = subst Safe (sym (send_begins-ok s id b h)) (record {
    counted = let count = v.counted in omega arith;
    status = v.status;
    waits_closed = v.waits_closed;
    shut_closed = v.shut_closed;
    shut_alone = v.shut_alone;
    shut_idle = v.shut_idle;
    room = v.room;
    acks_sound =
        added-AreSound (looks s.acks) _ s.next_ack s.acked id
          (λ o. lookup-insert s.acks id o s.next_ack) v.acks_sound;
  })

  pub send_begins-Safe :
      (s : Stream B D V) (id : String) (encoded : Result (GoError D) B)
      → Inv s
      → Safe (send_begins id encoded s)
  send_begins-Safe s id encoded v = elim v.status [
    | inr (e, h) ↦ subst Safe (sym (send_begins_closed s e id encoded h)) v
    | inl h ↦ send_opened s id encoded v h
  ]

  message_opened :
      (s : Stream B D V) (id : String) (decoded : Result (GoError D) V)
      → Inv s
      → IsOpen s
      → s.receiver ≡ none
      → Safe (message_begins id decoded s)
  message_opened s id (err e) v h r = subst Safe (sym (message_begins-err s id e h r)) (record {
    counted = let count = v.counted in omega arith;
    status = v.status;
    waits_closed = v.waits_closed;
    shut_closed = v.shut_closed;
    shut_alone = v.shut_alone;
    shut_idle = v.shut_idle;
    room = v.room;
    acks_sound = v.acks_sound;
  })
  message_opened s id (ok m) v h r = subst Safe (sym (message_begins-ok s id m h r)) (record {
    counted = let count = v.counted in let idle : busy s.receiver ≡ 0 = ap busy r in omega arith;
    status = v.status;
    waits_closed = v.waits_closed;
    shut_closed = v.shut_closed;
    shut_alone = v.shut_alone;
    shut_idle = λ n. absurd (let both : true ≡ false = sym n ∙ not_shut s v h.0 in cc);
    room = v.room;
    acks_sound = v.acks_sound;
  })

  pub message_begins-Safe :
      (s : Stream B D V) (id : String) (decoded : Result (GoError D) V)
      → Inv s
      → Safe (message_begins id decoded s)
  message_begins-Safe s id decoded v = elim (Option-cases s.receiver) [
    | inr (m, r) ↦ subst Safe (sym (message_begins_busy s m id decoded r)) tt
    | inl r ↦ elim v.status [
      | inr (e, h) ↦ subst Safe (sym (message_begins_closed s e id decoded h r)) v
      | inl h ↦ message_opened s id decoded v h r
    ]
  ]
