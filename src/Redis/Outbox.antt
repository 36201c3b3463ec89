-- ===== src/Redis/Outbox.antt =====
-- internal/bus/bus_redis.go: an outbox for each channel, and what a step does to it.
use livekit_psrpc.Prelude.{
  some-injective, ◌≡◌, refl, sym, ◌∙◌, ap, subst, String, List, [], ◌∷◌, ◌++◌, none, some, inl, inr,
  Bool, if◌then◌else◌, Bool-cases, ◌==◌, string_equality,
}
use mathlib.Core.List.{append_assoc}
use livekit_psrpc.Redis.State.{Stage, absent, waiting, checking, draining, sending, Post}
use livekit_psrpc.Redis.Steps.{update}
use livekit_psrpc.Redis.Worker.{exec_post, Event, publishing, executing}
use livekit_psrpc.Redis.Moves.{given_more}
use livekit_psrpc.Redis.Kept.{in_flight}

-- What a channel's publications amount to: the messages that are to be sent, and those with which Redis
-- was called, each with whether the call failed.
pub record Outbox (B : Type 0) : Type 0 where
  pub pending : List B
  pub done : List (B × Bool)

-- What an event of the bus is to the outbox of one channel.
pub data Act (B : Type 0) : Type 0 where
  idles : Act B
  accepts : B → Act B
  sends : Bool → Act B

abbrev pub act_of : {B : Type 0} → String → Event B → Act B
act_of c (publishing o b) = if o == c then accepts b else idles
act_of c (executing failed o) = if o == c then sends failed else idles
act_of c _ = idles

-- A publication puts its message at the end of the outbox. A step of the channel's goroutine takes the
-- first message, which Redis was called with, or leaves the outbox. Anything else leaves it.
pub data Advance {B : Type 0} : Act B → Outbox B → Outbox B → Type 0 where
  idle : (o : Outbox B) → Advance idles o o
  accepted :
      (o : Outbox B) (b : B) → Advance (accepts b) o (record o { pending = o.pending ++ b ∷ [] })
  prepared : (failed : Bool) (o : Outbox B) → Advance (sends failed) o o
  tried :
      (failed : Bool) (b : B) (q : List B) (done : List (B × Bool))
      → Advance
          (sends failed)
          (record { pending = b ∷ q; done = done })
          (record { pending = q; done = done ++ (b, failed) ∷ [] })

module _ {B : Type 0} where
  unfoldable pub outbox : Post B → Outbox B
  outbox p = record { pending = in_flight p.stage ++ p.queue; done = p.tried }

  -- Two outboxes that are equal.
  pub same-idle : (o o' : Outbox B) → o ≡ o' → Advance idles o o'
  same-idle o o' e = subst (Advance idles o) e (idle o)

  same : (failed : Bool) (o o' : Outbox B) → o ≡ o' → Advance (sends failed) o o'
  same failed o o' e = subst (Advance (sends failed) o) e (prepared failed o)

  outbox_of :
      (p : Post B) (s : Stage B) (q : List B)
      → p.stage ≡ s
      → p.queue ≡ q
      → outbox p ≡ record { pending = in_flight s ++ q; done = p.tried }
  unfolding outbox
  outbox_of p s q e f =
      let x : outbox p ≡ record { pending = in_flight s ++ p.queue; done = p.tried } =
        ap (λ x. record { pending = in_flight x ++ p.queue; done = p.tried }) e in
      x ∙ ap (λ x. record { pending = in_flight s ++ x; done = p.tried }) f

  next-Advance :
      (failed : Bool) (p p' q : Post B)
      → exec_post failed p ≡ some q
      → exec_post failed p ≡ some p'
      → Advance (sends failed) (outbox p) (outbox q)
      → Advance (sends failed) (outbox p) (outbox p')
  next-Advance failed p p' q e x h =
      subst (λ y. Advance (sends failed) (outbox p) (outbox y)) (some-injective q p' (sym e ∙ x)) h

  send-Advance :
      (failed : Bool) (p : Post B) (b : B)
      → p.stage ≡ sending b
      → Advance
          (sends failed)
          (outbox p)
          (outbox (record p { stage = draining; tried = p.tried ++ (b, failed) ∷ [] }))
  unfolding outbox
  send-Advance failed p b e =
      subst
        (λ o.
          Advance (sends failed) o
            (record { pending = p.queue; done = p.tried ++ (b, failed) ∷ [] }))
        (sym (outbox_of p (sending b) p.queue e refl)) (tried failed b p.queue p.tried)

  pub exec_post-Advance :
      (failed : Bool) (p p' : Post B) (s : Stage B) (q : List B)
      → p.stage ≡ s
      → p.queue ≡ q
      → exec_post failed p ≡ some p'
      → Advance (sends failed) (outbox p) (outbox p')
  unfolding exec_post outbox
  exec_post-Advance failed p p' absent q e f x =
      (let y : exec_post failed p ≡ none = simp (e, exec_post) refl in cc)
  exec_post-Advance failed p p' waiting q e f x =
      (let y : exec_post failed p ≡ none = simp (e, exec_post) refl in cc)
  exec_post-Advance failed p p' checking [] e f x =
      next-Advance failed p p' (record p { stage = absent }) (simp (e, f, exec_post) refl) x
        (same failed _ _ (outbox_of p checking p.queue e refl))
  exec_post-Advance failed p p' checking (b ∷ q) e f x =
      next-Advance failed p p' (record p { stage = draining }) (simp (e, f, exec_post) refl) x
        (same failed _ _ (outbox_of p checking p.queue e refl))
  exec_post-Advance failed p p' draining [] e f x =
      next-Advance failed p p' (record p { stage = checking }) (simp (e, f, exec_post) refl) x
        (same failed _ _ (outbox_of p draining p.queue e refl))
  exec_post-Advance failed p p' draining (b ∷ q) e f x =
      next-Advance failed p p' (record p { stage = sending b; queue = q })
        (simp (e, f, exec_post) refl) x (same failed _ _ (outbox_of p draining (b ∷ q) e f))
  exec_post-Advance failed p p' (sending b) q e f x =
      next-Advance failed p p' (record p { stage = draining; tried = p.tried ++ (b, failed) ∷ [] })
        (simp (e, exec_post) refl) x (send-Advance failed p b e)

  pub update-Advance :
      (c : String) (p : Post B) (posts : String → Post B) (a : Act B)
      → Advance a (outbox (posts c)) (outbox p)
      → (o : String)
      → Advance (if c == o then a else idles) (outbox (posts o)) (outbox (update c p posts o))
  update-Advance c p posts a h o = elim (Bool-cases (c == o)) [
    | inl same ↦ rw same (
        subst (λ x. Advance a (outbox (posts x)) (outbox p)) ((string_equality.decides c o).0 same)
          h)
    | inr other ↦ rw other (idle (outbox (posts o)))
  ]

  pub more-Advance : (b : B) (p : Post B) → Advance (accepts b) (outbox p) (outbox (given_more b p))
  unfolding outbox
  more-Advance b p =
      subst (λ x. Advance (accepts b) (outbox p) (record { pending = x; done = p.tried }))
        (append_assoc (in_flight p.stage) p.queue (b ∷ [])) (accepted (outbox p) b)

  -- A stage without a message in flight can change.
  pub restaged :
      (p : Post B) (s : Stage B)
      → in_flight p.stage ≡ in_flight s
      → outbox (record p { stage = s }) ≡ outbox p
  unfolding outbox
  restaged p s e = ap (λ x. record { pending = x ++ p.queue; done = p.tried }) (sym e)
