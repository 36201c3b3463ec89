-- ===== src/Redis/Quiet.antt =====
-- internal/bus/bus_redis.go: the states that the bus reaches, and those in which nothing is left to do.
use livekit_psrpc.Prelude.{
  some-injective, elem, string_equality, ◌≡◌, ◌⊎◌, refl, sym, ◌∙◌, ap, subst, String, Bool, ◌&&◌,
  true, false, List, [], ◌∷◌, ◌++◌, Option, none, some, arith, inl, inr, Bool-cases, Option-cases,
  ◌==◌, nat_equality, ltb,
}
use mathlib.Core.List.{append-nil}
use livekit_psrpc.Redis.State.{
  WriteOp, Stage, absent, waiting, checking, draining, sending, Post, Worker, asleep, busy, looping,
  calling, RedisBus, desired, is_some, messages, new_redis_message_bus,
}
use livekit_psrpc.Redis.Steps.{push_op, wake}
use livekit_psrpc.Redis.Worker.{
  exec_post, exec, work, Event, pushing, waking, working, executing, worker_locks, exec_locks,
  unless, step, Reach, begins, follows,
}
use livekit_psrpc.Redis.Does.{step-Moves}
use livekit_psrpc.Redis.Sync.{Synced, Moves-Synced}
use livekit_psrpc.Redis.Awake.{Awake, is_nil, Moves-Awake}
use livekit_psrpc.Redis.Kept.{Kept}
use livekit_psrpc.Redis.Owned.{Owned, Moves-Owned}

-- A step that is possible is not refused.
refused {ℓ} : {A : Type 0} {C : Type ℓ} (o : Option A) → o ≡ none → is_some o ≡ true → C
refused o h y =
    absurd (let z : is_some o ≡ false = ap is_some h in let both : true ≡ false = sym y ∙ z in cc)

nil-cases : {A : Type 0} (xs : List A) → (xs ≡ []) ⊎ (is_nil xs ≡ false)
nil-cases [] = inl refl
nil-cases (x ∷ xs) = inr refl

module _ {B : Type 0} where
  pub record Sound (r : RedisBus B) : Type 0 where
    pub synced : Synced r
    pub awake : Awake r
    pub owned : Owned r

  new-Sound : Sound (new_redis_message_bus {B = B})
  unfolding new_redis_message_bus
  new-Sound = record {
    synced = λ c clean. refl;
    awake = record {
      marked = λ x. absurd (let y : true ≡ false = x in cc);
      queued = λ x. absurd (let y : true ≡ false = x in cc);
    };
    owned = record { kept = λ c. record { in_order = refl; idle = λ x. refl }; owners = λ c. refl };
  }

  -- Every state that a new bus reaches satisfies the conditions on its channels, its wakeups and its queues:
  -- clean channels are as wanted, pending work has a wakeup or a worker, and each queue keeps its messages
  -- and has at most one operation on its way.
  pub Reach-Sound : (r : RedisBus B) → Reach new_redis_message_bus r → Sound r
  Reach-Sound r begins = new-Sound
  Reach-Sound r (follows {r = before} e reach h) =
      let m = step-Moves e before r h in
      let s = Reach-Sound before reach in
      record {
        synced = Moves-Synced before r m s.synced;
        awake = Moves-Awake before r m s.awake;
        owned = Moves-Owned before r m s.owned;
      }

  -- The read worker does not hold the lock in a write that blocks, and no goroutine and no call of
  -- enqueueWriteOp has a step: only calls of the bus, and messages from Redis, can follow.
  pub record Quiet (r : RedisBus B) : Type 0 where
    pub unheld : r.held ≡ false
    pub no_push : step pushing r ≡ none
    pub no_wake : step waking r ≡ none
    pub no_work : step (working false false) r ≡ none
    pub no_exec : (c : String) → step (executing false c) r ≡ none

  step-unheld :
      (r : RedisBus B) (locks : Bool) (o : Option (RedisBus B))
      → r.held ≡ false
      → unless (locks && r.held) o ≡ none
      → o ≡ none
  step-unheld r true o e h = rw e at h
  step-unheld r false o e h = h

  Quiet-work : (r : RedisBus B) → Quiet r → work false false r ≡ none
  unfolding step
  Quiet-work r q = step-unheld r (worker_locks r.worker) (work false false r) q.unheld q.no_work

  Quiet-exec : (r : RedisBus B) → Quiet r → (c : String) → exec false c r ≡ none
  unfolding step
  Quiet-exec r q c =
      step-unheld r (exec_locks (r.posts c).stage) (exec false c r) q.unheld (q.no_exec c)

  Quiet-push_op : (r : RedisBus B) → Quiet r → push_op r ≡ none
  unfolding step
  Quiet-push_op r q = q.no_push

  Quiet-wake : (r : RedisBus B) → Quiet r → wake r ≡ none
  unfolding step
  Quiet-wake r q = q.no_wake

  push_op-none :
      (r : RedisBus B) (callers : List WriteOp)
      → r.callers ≡ callers
      → push_op r ≡ none
      → r.callers ≡ []
  unfolding push_op
  push_op-none r [] e h = e
  push_op-none r (op ∷ callers) e h = refused (push_op r) h (simp (e, push_op) refl)

  wake-none : (r : RedisBus B) → wake r ≡ none → ltb 0 r.wakers ≡ false
  unfolding wake
  wake-none r h = elim (Bool-cases (r.wakers == 0)) [
    | inl e ↦ ground arith
    | inr e ↦ refused (wake r) h (simp (e, wake) refl)
  ]

  work-none :
      (r : RedisBus B) (w : Worker)
      → r.worker ≡ w
      → work false false r ≡ none
      → (r.worker ≡ asleep) × (r.wakeup ≡ false)
  unfolding work
  work-none r asleep e h = elim (Bool-cases r.wakeup) [
    | inl up ↦ refused (work false false r) h (simp (e, up, work) refl)
    | inr down ↦ (e, down)
  ]
  work-none r busy e h = refused (work false false r) h (simp (e, work) refl)
  work-none r looping e h = refused (work false false r) h (simp (e, work) refl)
  work-none r (calling sub unsub) e h = refused (work false false r) h (simp (e, work) refl)

  -- A queue that cannot move has no goroutine.
  exec-none :
      (r : RedisBus B) (c : String) (s : Stage B) (q : List B)
      → (r.posts c).stage ≡ s
      → (r.posts c).queue ≡ q
      → exec false c r ≡ none
      → (s ≡ absent) ⊎ (s ≡ waiting)
  unfolding exec exec_post
  exec-none r c absent q e f h = inl refl
  exec-none r c waiting q e f h = inr refl
  exec-none r c checking [] e f h = refused (exec false c r) h (simp (e, f, exec, exec_post) refl)
  exec-none r c checking (b ∷ q) e f h =
      refused (exec false c r) h (simp (e, f, exec, exec_post) refl)
  exec-none r c draining [] e f h = refused (exec false c r) h (simp (e, f, exec, exec_post) refl)
  exec-none r c draining (b ∷ q) e f h =
      refused (exec false c r) h (simp (e, f, exec, exec_post) refl)
  exec-none r c (sending b) q e f h = refused (exec false c r) h (simp (e, exec, exec_post) refl)

  -- Without a reconciliation on its way no channel is marked.
  clean :
      (r : RedisBus B) → Awake r → r.callers ≡ [] → r.ops ≡ [] → r.worker ≡ asleep → r.dirty ≡ []
  clean r h e f w = elim (nil-cases r.dirty) [
    | inl d ↦ d
    | inr d ↦ absurd (let y : false ≡ true = rw (e, f, w) at (h.marked d) in cc)
  ]

  drained-ops :
      (r : RedisBus B)
      → Awake r
      → r.wakeup ≡ false
      → ltb 0 r.wakers ≡ false
      → r.worker ≡ asleep
      → r.ops ≡ []
  drained-ops r h e f w = elim (nil-cases r.ops) [
    | inl d ↦ d
    | inr d ↦ absurd (let y : false ≡ true = rw (e, f, w) at (h.queued d) in cc)
  ]

  idle-Post :
      (r : RedisBus B) (c : String)
      → Owned r
      → r.callers ≡ []
      → r.ops ≡ []
      → exec false c r ≡ none
      → (r.posts c).stage ≡ absent
  idle-Post r c h e f x = elim (exec-none r c (r.posts c).stage (r.posts c).queue refl refl x) [
    | inl y ↦ y
    | inr y ↦ absurd (let z : 0 ≡ 1 = rw (e, f, y) at (h.owners c) in omega arith)
  ]

  tried-all : (p : Post B) → Kept p → p.stage ≡ absent → messages p.tried ≡ p.given
  tried-all p h e =
      let q : p.queue ≡ [] = h.idle (rw e refl) in
      let k : messages p.tried ++ [] ++ [] ≡ p.given = rw (e, q) at h.in_order in
      let m = messages p.tried in
      let l : m ≡ m ++ [] ++ [] = sym (append-nil (m ++ []) ∙ append-nil m) in l ∙ k

  -- In a state that a new bus reaches, in which the read worker does not hold the lock in a write that
  -- blocks, and in which nothing can move but new calls, Redis was called with each message that was
  -- published on a channel, once and in the order of the publications (a call that failed lost its
  -- message), and the channel is among the current ones, whose subscription Redis has accepted, just when
  -- the bus has a subscription to it.
  pub quiet_lem :
      (r : RedisBus B)
      → Reach new_redis_message_bus r
      → Quiet r
      → (c : String)
      → ((messages (r.posts c).tried ≡ (r.posts c).given) × (elem c r.current ≡ desired r c))
  quiet_lem r reach q c =
      let s = Reach-Sound r reach in
      let (w, up) = work-none r r.worker refl (Quiet-work r q) in
      let e = push_op-none r r.callers refl (Quiet-push_op r q) in
      let f = drained-ops r s.awake up (wake-none r (Quiet-wake r q)) w in
      let d = clean r s.awake e f w in
      (
        tried-all (r.posts c) (s.owned.kept c) (idle-Post r c s.owned e f (Quiet-exec r q c)),
        rw w at (s.synced c (rw d refl)),
      )

-- A sequence of steps.
unfoldable pub run : {B : Type 0} → List (Event B) → RedisBus B → Option (RedisBus B)
run [] r = some r
run (e ∷ es) r = elim (step e r) [ none ↦ none | some r' ↦ run es r' ]

pub run-Reach :
    {B : Type 0} (start : RedisBus B) (es : List (Event B)) (r r' : RedisBus B)
    → Reach start r
    → run es r ≡ some r'
    → Reach start r'
unfolding run
run-Reach start [] r r' reach e = subst (Reach start) (some-injective r r' e) reach
run-Reach start (e ∷ es) r r' reach h = elim (Option-cases (step e r)) [
  | inl f ↦ (let y : run (e ∷ es) r ≡ none = simp (f, run) refl in cc)
  | inr (s, f) ↦
      run-Reach start es s r' (follows e reach f)
        (let y : run (e ∷ es) r ≡ run es s = simp (f, run) refl in sym y ∙ h)
]
