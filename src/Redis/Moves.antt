-- ===== src/Redis/Moves.antt =====
-- internal/bus/bus_redis.go: the steps of the bus by what each changes.
use livekit_psrpc.Prelude.{
  ◌≡◌, ◌⊎◌, refl, sym, subst, ◌+◌, ◌-◌, String, Bool, true, false, not, ◌&&◌, List, [], ◌∷◌, ◌++◌,
  none, Option, some, ◌==◌, string_equality, nat_equality, inl, inr, Bool-cases, Option-cases, elem,
}
use livekit_psrpc.Redis.State.{
  WriteOp, exec_publish, reconcile, Stage, absent, waiting, checking, draining, sending, Post,
  Worker, asleep, busy, looping, calling, RedisBus, desired,
}
use livekit_psrpc.Redis.Steps.{keep, update, publish, push_op, wake, rotate_callers}
use livekit_psrpc.Redis.Worker.{begin_round, end_round, pop_op, work, exec, exec_post, unless}
use livekit_psrpc.Redis.Touches.{Touches}

abbrev pub is_absent : {B : Type 0} → Stage B → Bool
is_absent absent = true
is_absent waiting = false
is_absent checking = false
is_absent draining = false
is_absent (sending b) = false

pub unless-some :
    {A : Type 0} (waits : Bool) (o : Option A) (a : A) → unless waits o ≡ some a → o ≡ some a
unless-some true o a e = cc
unless-some false o a e = e

module _ {B : Type 0} where
  abbrev pub given_more : B → Post B → Post B
  given_more b p = record p { queue = p.queue ++ b ∷ []; given = p.given ++ b ∷ [] }

  -- The steps that are neither a publication nor a step of the goroutine of one.
  pub data Rest (r : RedisBus B) : RedisBus B → Type 0 where
    touched : {r' : RedisBus B} → Touches r r' → Rest r r'
    pushed :
        (op : WriteOp) (callers : List WriteOp)
        → r.callers ≡ op ∷ callers
        → Rest r (record r { callers = callers; ops = r.ops ++ op ∷ []; wakers = r.wakers + 1 })
    woken : Rest r (record r { wakers = r.wakers - 1; wakeup = true })
    rotated :
        (op : WriteOp) (callers : List WriteOp)
        → r.callers ≡ op ∷ callers
        → Rest r (record r { callers = callers ++ op ∷ [] })
    began : r.worker ≡ asleep → Rest r (record r { wakeup = false; worker = busy })
    drained : r.worker ≡ busy → r.ops ≡ [] → Rest r (record r { worker = asleep })
    popped_exec :
        (c : String) (ops : List WriteOp)
        → r.worker ≡ busy
        → r.ops ≡ exec_publish c ∷ ops
        → Rest r (record r {
          ops = ops;
          posts = update c (record (r.posts c) { stage = checking }) r.posts;
        })
    popped_reconcile :
        (ops : List WriteOp)
        → r.worker ≡ busy
        → r.ops ≡ reconcile ∷ ops
        → Rest r (record r { ops = ops; worker = looping })
    rounds_done : r.worker ≡ looping → r.dirty ≡ [] → Rest r (record r { worker = busy })
    round_begun :
        r.worker ≡ looping
        → Rest r (record r {
          dirty = [];
          worker =
              calling
                (keep (λ x. not (elem x r.current) && desired r x) r.dirty)
                (keep (λ x. elem x r.current && not (desired r x)) r.dirty);
        })
    round_ended :
        (sub_err unsub_err : Bool) (sub unsub : List String)
        → r.worker ≡ calling sub unsub
        → Rest r (end_round sub_err unsub_err sub unsub r)
    lock_moved : (held : Bool) → Rest r (record r { held = held })

  pub data Moves (r : RedisBus B) : RedisBus B → Type 0 where
    rests : {r' : RedisBus B} → Rest r r' → Moves r r'
    published_first :
        (c : String) (b : B)
        → (r.posts c).stage ≡ absent
        → Moves r (record r {
          posts = update c (record (given_more b (r.posts c)) { stage = waiting }) r.posts;
          callers = exec_publish c ∷ r.callers;
        })
    published_next :
        (c : String) (b : B)
        → is_absent (r.posts c).stage ≡ false
        → Moves r (record r { posts = update c (given_more b (r.posts c)) r.posts })
    executed :
        (failed : Bool) (c : String) (p : Post B)
        → exec_post failed (r.posts c) ≡ some p
        → Moves r (record r { posts = update c p r.posts })

  pub Stage-cases : (s : Stage B) → (s ≡ absent) ⊎ (is_absent s ≡ false)
  Stage-cases absent = inl refl
  Stage-cases waiting = inr refl
  Stage-cases checking = inr refl
  Stage-cases draining = inr refl
  Stage-cases (sending b) = inr refl

  pub publish_next :
      (c : String) (b : B) (r : RedisBus B) (s : Stage B)
      → (r.posts c).stage ≡ s
      → is_absent s ≡ false
      → publish c b r ≡ record r { posts = update c (given_more b (r.posts c)) r.posts }
  unfolding publish
  publish_next c b r absent e h = cc
  publish_next c b r waiting e h = simp (e, publish) refl
  publish_next c b r checking e h = simp (e, publish) refl
  publish_next c b r draining e h = simp (e, publish) refl
  publish_next c b r (sending x) e h = simp (e, publish) refl

  pub publish-Moves : (c : String) (b : B) (r : RedisBus B) → Moves r (publish c b r)
  unfolding publish
  publish-Moves c b r = elim (Stage-cases (r.posts c).stage) [
    | inl e ↦ subst (Moves r) (simp (e, publish) refl) (published_first c b e)
    | inr e ↦
        subst (Moves r) (sym (publish_next c b r (r.posts c).stage refl e)) (published_next c b e)
  ]

  pop_op-Rest :
      (r : RedisBus B) (ops : List WriteOp) → r.worker ≡ busy → r.ops ≡ ops → Rest r (pop_op r)
  unfolding pop_op
  pop_op-Rest r [] w e = subst (Rest r) (simp (e, pop_op) refl) (drained w e)
  pop_op-Rest r (exec_publish c ∷ ops) w e =
      subst (Rest r) (simp (e, pop_op) refl) (popped_exec c ops w e)
  pop_op-Rest r (reconcile ∷ ops) w e =
      subst (Rest r) (simp (e, pop_op) refl) (popped_reconcile ops w e)

  begin_round-Rest :
      (r : RedisBus B) (dirty : List String)
      → r.worker ≡ looping
      → r.dirty ≡ dirty
      → Rest r (begin_round r)
  unfolding begin_round
  begin_round-Rest r [] w e = subst (Rest r) (simp (e, begin_round) refl) (rounds_done w e)
  begin_round-Rest r (c ∷ cs) w e = subst (Rest r) (simp (e, begin_round) refl) (round_begun w)

  pub work-Rest :
      (sub_err unsub_err : Bool) (r r' : RedisBus B) (w : Worker)
      → r.worker ≡ w
      → work sub_err unsub_err r ≡ some r'
      → Rest r r'
  unfolding work
  work-Rest sub_err unsub_err r r' asleep w e = elim (Bool-cases r.wakeup) [
    | inl up ↦
        subst (Rest r)
          (let x : work sub_err unsub_err r ≡ some (record r { wakeup = false; worker = busy }) =
              simp (w, up, work) refl in
            cc)
          (began w)
    | inr down ↦ (let x : work sub_err unsub_err r ≡ none = simp (w, down, work) refl in cc)
  ]
  work-Rest sub_err unsub_err r r' busy w e =
      subst (Rest r)
        (let x : work sub_err unsub_err r ≡ some (pop_op r) = simp (w, work) refl in cc)
        (pop_op-Rest r r.ops w refl)
  work-Rest sub_err unsub_err r r' looping w e =
      subst (Rest r)
        (let x : work sub_err unsub_err r ≡ some (begin_round r) = simp (w, work) refl in cc)
        (begin_round-Rest r r.dirty w refl)
  work-Rest sub_err unsub_err r r' (calling sub unsub) w e =
      subst (Rest r)
        (let x : work sub_err unsub_err r ≡ some (end_round sub_err unsub_err sub unsub r) =
            simp (w, work) refl in
          cc)
        (round_ended sub_err unsub_err sub unsub w)

  pub exec-Moves :
      (failed : Bool) (c : String) (r r' : RedisBus B) → exec failed c r ≡ some r' → Moves r r'
  unfolding exec
  exec-Moves failed c r r' e = elim (Option-cases (exec_post failed (r.posts c))) [
    | inl h ↦ (let x : exec failed c r ≡ none = simp (h, exec) refl in cc)
    | inr (p, h) ↦
        subst (Moves r)
          (let x : exec failed c r ≡ some (record r { posts = update c p r.posts }) =
              simp (h, exec) refl in
            cc)
          (executed failed c p h)
  ]

  pub push_op-Rest :
      (r r' : RedisBus B) (callers : List WriteOp)
      → r.callers ≡ callers
      → push_op r ≡ some r'
      → Rest r r'
  unfolding push_op
  push_op-Rest r r' [] h e = (let x : push_op r ≡ none = simp (h, push_op) refl in cc)
  push_op-Rest r r' (op ∷ callers) h e =
      subst (Rest r)
        (let x : push_op r
              ≡ some
                  (record r { callers = callers; ops = r.ops ++ op ∷ []; wakers = r.wakers + 1 }) =
            simp (h, push_op) refl in
          cc)
        (pushed op callers h)

  pub rotate_callers-Rest :
      (r r' : RedisBus B) (callers : List WriteOp)
      → r.callers ≡ callers
      → rotate_callers r ≡ some r'
      → Rest r r'
  unfolding rotate_callers
  rotate_callers-Rest r r' [] h e =
      (let x : rotate_callers r ≡ none = simp (h, rotate_callers) refl in cc)
  rotate_callers-Rest r r' (op ∷ callers) h e =
      subst (Rest r)
        (let x : rotate_callers r ≡ some (record r { callers = callers ++ op ∷ [] }) =
            simp (h, rotate_callers) refl in
          cc)
        (rotated op callers h)

  pub wake-Rest : (r r' : RedisBus B) → wake r ≡ some r' → Rest r r'
  unfolding wake
  wake-Rest r r' e = elim (Bool-cases (r.wakers == 0)) [
    | inl h ↦ (let x : wake r ≡ none = simp (h, wake) refl in cc)
    | inr h ↦
        subst (Rest r)
          (let x : wake r ≡ some (record r { wakers = r.wakers - 1; wakeup = true }) =
              simp (h, wake) refl in
            cc)
          woken
  ]
