-- ===== src/Stream/Reach.antt =====
-- internal/stream/stream.go: the states that the calls on a stream can reach.
use livekit_psrpc.Prelude.{
  ℕ, ◌+◌, ◌≡◌, ◌≢◌, inl, inr, refl, sym, ap, ◌∙◌, subst, String, true, false, List, [], ◌∷◌, Option,
  none, ◌==◌, nat_equality, string_equality, length, Bool-cases, Option-cases, arith,
}
use livekit_psrpc.Errors.Value.{GoError}
use livekit_psrpc.Stream.State.{Stream, panics, blocked, next}
use livekit_psrpc.Stream.Steps.{Event, close_arrives, close_begins, close_ends, taken, step}
use livekit_psrpc.Stream.Closing.{
  close_arrives_busy, close_arrives_closed, close_arrives_open, close_begins_closed,
  close_begins_open, close_ends_wait, close_ends_lem, cause_of,
}
use livekit_psrpc.Stream.Acks.{added-AreSound}
use livekit_psrpc.Stream.State.{new_stream}
use livekit_psrpc.Stream.Steps.{
  begin_send, end_send, handle_ack, begin_message, end_message, handle_close, begin_close,
  end_close, take, cancel_parent,
}
use livekit_psrpc.Stream.Invariant.{
  busy, looks, Inv, Safe, not_shut, not_waiting, send_begins-Safe, message_begins-Safe,
}
use livekit_psrpc.Stream.SafeSteps.{send_ends-Safe, ack_arrives-Safe, message_ends-Safe}

module _ {B D V : Type 0} where
  close_arrives-Safe : (s : Stream B D V) (cause : GoError D) → Inv s → Safe (close_arrives cause s)
  close_arrives-Safe s cause v = elim (Option-cases s.receiver) [
    | inr (m, r) ↦ subst Safe (sym (close_arrives_busy s m cause r)) tt
    | inl r ↦ elim v.status [
      | inr (e, h) ↦ subst Safe (sym (close_arrives_closed s cause e h r)) v
      | inl h ↦ subst Safe (sym (close_arrives_open s cause h r (not_shut s v h.0))) (record {
        counted = v.counted;
        status = inr (cause, (refl, refl));
        waits_closed = λ n. refl;
        shut_closed = λ n. refl;
        shut_alone = λ n. not_waiting s v h.0;
        shut_idle = λ n. r;
        room = v.room;
        acks_sound = v.acks_sound;
      })
    ]
  ]

  close_begins-Safe :
      (s : Stream B D V) (cause : Option (GoError D)) → Inv s → Safe (close_begins cause s)
  close_begins-Safe s cause v = elim v.status [
    | inr (e, h) ↦ subst Safe (sym (close_begins_closed s cause e h)) v
    | inl h ↦ subst Safe (sym (close_begins_open s cause h)) (record {
      counted = v.counted;
      status = inr (cause_of cause, (refl, refl));
      waits_closed = λ n. refl;
      shut_closed = λ n. refl;
      shut_alone = λ n. absurd (let both : true ≡ false = sym n ∙ not_shut s v h.0 in cc);
      shut_idle = v.shut_idle;
      room = v.room;
      acks_sound = v.acks_sound;
    })
  ]

  close_finishes :
      (s : Stream B D V) (r : Option (GoError D))
      → Inv s
      → s.closing ≡ true
      → s.pending ≡ 0
      → Safe (close_ends r s)
  close_finishes s r v c p =
      let count = v.counted in
      let unshut : s.recv_closed ≡ false = elim (Bool-cases s.recv_closed) [
        | inl n ↦ absurd (let both : true ≡ false = sym c ∙ v.shut_alone n in cc)
        | inr n ↦ n
      ] in
      let idle : s.receiver ≡ none = elim (Option-cases s.receiver) [
        | inl h ↦ h
        | inr (m, h) ↦ absurd (let one : busy s.receiver ≡ 1 = ap busy h in omega arith)
      ] in
      subst Safe (sym (close_ends_lem s r c p unshut)) (record {
        counted = v.counted;
        status = v.status;
        waits_closed = λ n. v.waits_closed c;
        shut_closed = λ n. v.waits_closed c;
        shut_alone = λ n. refl;
        shut_idle = λ n. idle;
        room = v.room;
        acks_sound = v.acks_sound;
      })

  close_ends-Safe : (s : Stream B D V) (r : Option (GoError D)) → Inv s → Safe (close_ends r s)
  close_ends-Safe s r v = elim (Bool-cases s.closing) [
    | inr c ↦ subst Safe (sym (close_ends_wait s r (inl c))) tt
    | inl c ↦ elim (Bool-cases (s.pending == 0)) [
      | inl p ↦ close_finishes s r v c ((nat_equality.decides _ _).0 p)
      | inr p ↦ subst Safe (sym (close_ends_wait s r (inr (ground arith)))) tt
    ]
  ]

  pub taken_some :
      (s : Stream B D V) (m : V) (ms : List V)
      → s.recv ≡ m ∷ ms
      → taken s ≡ next (record s { recv = ms }) none
  unfolding taken
  taken_some s m ms h = simp (h, taken) refl

  pub taken_none : (s : Stream B D V) → s.recv ≡ [] → taken s ≡ blocked
  unfolding taken
  taken_none s h = simp (h, taken) refl

  taken-Safe : (s : Stream B D V) (ms : List V) → s.recv ≡ ms → Inv s → Safe (taken s)
  taken-Safe s [] h v = subst Safe (sym (taken_none s h)) tt
  taken-Safe s (m ∷ ms) h v = subst Safe (sym (taken_some s m ms h)) (record {
    counted = v.counted;
    status = v.status;
    waits_closed = v.waits_closed;
    shut_closed = v.shut_closed;
    shut_alone = v.shut_alone;
    shut_idle = v.shut_idle;
    room =
        let full : length s.recv ≡ length ms + 1 = ap length h ∙ omega arith in
        let size = v.room in omega arith;
    acks_sound = v.acks_sound;
  })

  step-Safe : (e : Event B D V) (s : Stream B D V) → Inv s → Safe (step e s)
  unfolding step
  step-Safe (begin_send id encoded) s v = send_begins-Safe s id encoded v
  step-Safe (end_send chan wake) s v = send_ends-Safe s chan wake v
  step-Safe (handle_ack id) s v = ack_arrives-Safe s id v
  step-Safe (begin_message id decoded) s v = message_begins-Safe s id decoded v
  step-Safe (end_message lost) s v = message_ends-Safe s lost v
  step-Safe (handle_close cause) s v = close_arrives-Safe s cause v
  step-Safe (begin_close cause) s v = close_begins-Safe s cause v
  step-Safe (end_close lost) s v = close_ends-Safe s lost v
  step-Safe take s v = taken-Safe s s.recv refl v
  step-Safe cancel_parent s v = record {
    counted = v.counted;
    status = v.status;
    waits_closed = v.waits_closed;
    shut_closed = v.shut_closed;
    shut_alone = v.shut_alone;
    shut_idle = v.shut_idle;
    room = v.room;
    acks_sound = v.acks_sound;
  }

  -- The states that a new stream reaches by steps of its calls, in any order.
  pub data Reach : Stream B D V → Type 0 where
    start : (size : ℕ) (ids : List String) → Reach (new_stream size ids)
    after :
        (e : Event B D V) (s s' : Stream B D V) (r : Option (GoError D))
        → Reach s
        → step e s ≡ next s' r
        → Reach s'

  new_stream-Inv :
      (size : ℕ) (ids : List String) → Inv (new_stream {B = B} {D = D} {V = V} size ids)
  unfolding new_stream
  new_stream-Inv size [] = record {
    counted = refl;
    status = inl (refl, refl);
    waits_closed = λ n. n;
    shut_closed = λ n. n;
    shut_alone = λ n. refl;
    shut_idle = λ n. refl;
    room = omega arith;
    acks_sound = record {
      unclosed = λ id c h. absurd cc;
      alone = λ id o c h k. absurd cc;
      old = λ c h. absurd cc;
    };
  }
  new_stream-Inv size (id ∷ ids) =
      let v = new_stream-Inv size ids in
      record {
        counted = v.counted;
        status = v.status;
        waits_closed = v.waits_closed;
        shut_closed = v.shut_closed;
        shut_alone = v.shut_alone;
        shut_idle = v.shut_idle;
        room = v.room;
        acks_sound =
            added-AreSound (looks (new_stream {B = B} {D = D} {V = V} size ids).acks) _ _ _ id
              (λ o. refl) v.acks_sound;
      }

  -- What holds of every state that a stream reaches: the pending count is that of the calls under way;
  -- the error is set exactly when the stream is closed; a Close that waits has closed it; the channel of
  -- received messages holds no more than its size and is closed only when the stream is closed, no Close
  -- waits and no message is worked on; and the ack channels that wait are open, of one request each.
  pub Reach-Inv : (s : Stream B D V) → Reach s → Inv s
  Reach-Inv s (start size ids) = new_stream-Inv size ids
  Reach-Inv _ (after e s s' r before run) = subst Safe run (step-Safe e s (Reach-Inv s before))

  -- On a stream that was reached by steps of its calls, in any order, no step panics: no channel is
  -- closed twice, nothing is sent on a closed one, and the count of the pending calls stays above 0.
  pub step_never_panics : (s : Stream B D V) (e : Event B D V) → Reach s → step e s ≢ panics
  step_never_panics s e before run = subst Safe run (step-Safe e s (Reach-Inv s before))
