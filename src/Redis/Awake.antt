-- ===== src/Redis/Awake.antt =====
-- internal/bus/bus_redis.go: what is still to be done has a goroutine that will do it.
use livekit_psrpc.Prelude.{
  ◌≡◌, refl, ap, subst, ℕ, String, Bool, true, false, not, ◌||◌, List, [], ◌∷◌, ◌++◌, ltb, arith,
}
use livekit_psrpc.Redis.State.{
  WriteOp, exec_publish, reconcile, Worker, asleep, busy, looping, calling, RedisBus,
}
use livekit_psrpc.Redis.Worker.{end_round}
use livekit_psrpc.Redis.Touches.{Touches, keeps, marks}
use livekit_psrpc.Redis.Moves.{
  Moves, touched, published_first, published_next, pushed, woken, rotated, began, drained,
  popped_exec, popped_reconcile, rounds_done, round_begun, round_ended, executed, lock_moved, rests,
}

abbrev pub is_nil : {A : Type 0} → List A → Bool
is_nil [] = true
is_nil (a ∷ as') = false

abbrev pub has_reconcile : List WriteOp → Bool
has_reconcile [] = false
has_reconcile (reconcile ∷ ops) = true
has_reconcile (exec_publish c ∷ ops) = has_reconcile ops

abbrev pub in_rounds : Worker → Bool
in_rounds asleep = false
in_rounds busy = false
in_rounds looping = true
in_rounds (calling sub unsub) = true

abbrev pub is_asleep : Worker → Bool
is_asleep asleep = true
is_asleep busy = false
is_asleep looping = false
is_asleep (calling sub unsub) = false

has_reconcile-append :
    (xs ys : List WriteOp) → has_reconcile (xs ++ ys) ≡ (has_reconcile xs || has_reconcile ys)
has_reconcile-append [] ys = refl
has_reconcile-append (reconcile ∷ xs) ys = refl
has_reconcile-append (exec_publish c ∷ xs) ys = has_reconcile-append xs ys

has_reconcile-cons :
    (op : WriteOp) (ops : List WriteOp)
    → has_reconcile (op ∷ ops) ≡ (has_reconcile (op ∷ []) || has_reconcile ops)
has_reconcile-cons reconcile ops = refl
has_reconcile-cons (exec_publish c) ops = refl

-- The two conditions, in the parts of the state that they read.
abbrev Marked : List String → List WriteOp → List WriteOp → Worker → Type 0
Marked dirty callers ops w =
    is_nil dirty ≡ false → (has_reconcile callers || has_reconcile ops || in_rounds w) ≡ true

abbrev Queued : List WriteOp → Bool → ℕ → Worker → Type 0
Queued ops wakeup wakers w =
    is_nil ops ≡ false → (wakeup || ltb 0 wakers || not (is_asleep w)) ≡ true

pushed-Marked :
    (dirty : List String) (op : WriteOp) (callers ops : List WriteOp) (w : Worker)
    → Marked dirty (op ∷ callers) ops w
    → Marked dirty callers (ops ++ op ∷ []) w
pushed-Marked dirty op callers ops w h x =
    let y = h x in
    let e = has_reconcile-append ops (op ∷ []) in
    let f = has_reconcile-cons op callers in ground arith

rotated-Marked :
    (dirty : List String) (op : WriteOp) (callers ops : List WriteOp) (w : Worker)
    → Marked dirty (op ∷ callers) ops w
    → Marked dirty (callers ++ op ∷ []) ops w
rotated-Marked dirty op callers ops w h x =
    let y = h x in
    let e = has_reconcile-append callers (op ∷ []) in
    let f = has_reconcile-cons op callers in ground arith

module _ {B : Type 0} where
  -- Marked channels have a reconciliation under way, and operations a wakeup unless the worker is awake.
  pub record Awake (r : RedisBus B) : Type 0 where
    pub marked : Marked r.dirty r.callers r.ops r.worker
    pub queued :
        is_nil r.ops ≡ false → (r.wakeup || ltb 0 r.wakers || not (is_asleep r.worker)) ≡ true

  touched-Awake : (r r' : RedisBus B) → Touches r r' → Awake r → Awake r'
  touched-Awake r _ (keeps subs queues id same) h = record { marked = h.marked; queued = h.queued }
  touched-Awake r _ (marks ch subs queues id same) h = record {
    marked = λ x. refl;
    queued = h.queued;
  }

  pub Moves-Awake : (r r' : RedisBus B) → Moves r r' → Awake r → Awake r'
  unfolding end_round
  Moves-Awake r r' (rests (touched t)) h = touched-Awake r r' t h
  Moves-Awake r r' (published_first c b e) h = record { marked = h.marked; queued = h.queued }
  Moves-Awake r r' (published_next c b e) h = record { marked = h.marked; queued = h.queued }
  Moves-Awake r r' (rests (pushed op callers e)) h = record {
    marked =
        pushed-Marked r.dirty op callers r.ops r.worker
          (subst (λ x. Marked r.dirty x r.ops r.worker) e h.marked);
    queued = λ x. ground arith;
  }
  Moves-Awake r r' (rests woken) h = record { marked = h.marked; queued = λ x. refl }
  Moves-Awake r r' (rests (rotated op callers e)) h = record {
    marked =
        rotated-Marked r.dirty op callers r.ops r.worker
          (subst (λ x. Marked r.dirty x r.ops r.worker) e h.marked);
    queued = h.queued;
  }
  Moves-Awake r r' (rests (began w)) h = record {
    marked = subst (Marked r.dirty r.callers r.ops) w h.marked;
    queued = λ x. ground arith;
  }
  Moves-Awake r r' (rests (drained w e)) h = record {
    marked = subst (Marked r.dirty r.callers r.ops) w h.marked;
    queued = λ x. absurd (let y : is_nil r.ops ≡ true = ap is_nil e in cc);
  }
  Moves-Awake r r' (rests (popped_exec c ops w e)) h = record {
    marked = subst (λ x. Marked r.dirty r.callers x r.worker) e h.marked;
    queued = λ x. rw w (ground arith);
  }
  Moves-Awake r r' (rests (popped_reconcile ops w e)) h = record {
    marked = λ x. ground arith;
    queued = λ x. ground arith;
  }
  Moves-Awake r r' (rests (rounds_done w e)) h = record {
    marked = λ x. absurd (let y : is_nil r.dirty ≡ true = ap is_nil e in cc);
    queued = λ x. ground arith;
  }
  Moves-Awake r r' (rests (round_begun w)) h = record {
    marked = λ x. ground arith;
    queued = λ x. ground arith;
  }
  Moves-Awake r r' (rests (round_ended sub_err unsub_err sub unsub w)) h = record {
    marked = λ x. ground arith;
    queued = λ x. ground arith;
  }
  Moves-Awake r r' (rests (lock_moved b)) h = record { marked = h.marked; queued = h.queued }
  Moves-Awake r r' (executed failed c p e) h = record { marked = h.marked; queued = h.queued }
