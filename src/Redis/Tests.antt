-- ===== src/Redis/Tests.antt =====
-- internal/bus/bus_redis.go: runs of the bus.
use livekit_psrpc.Prelude.{
  ◌≡◌, refl, ◌∙◌, ap, inl, inr, Bool-cases, ◌==◌, ==_refl, ℕ, String, Bool, true, false,
  if◌then◌else◌, List, [], ◌∷◌, none, some, elem, string_equality, arith,
}
use livekit_psrpc.Redis.State.{
  RedisBus, desired, new_redis_message_bus, Post, absent, Stage, waiting, checking, draining,
  sending, no_post, messages,
}
use livekit_psrpc.Redis.Steps.{
  subscribe, unsubscribe, publish, push_op, wake, rotate_callers, append_sub, update,
}
use livekit_psrpc.Redis.Worker.{
  Event, subscribing, publishing, pushing, waking, working, executing, step, Reach, begins, work,
  exec, exec_post, begin_round, end_round, pop_op,
}
use livekit_psrpc.Redis.Reader.{Locks, read_each}
use livekit_psrpc.Redis.Lock.{distinct, read_each-distinct}
use livekit_psrpc.Redis.Quiet.{Quiet, Sound, run, run-Reach, quiet_lem, Reach-Sound}
use livekit_psrpc.Redis.Outbox.{Advance, act_of, outbox}
use livekit_psrpc.Redis.Refine.{step-Advance}

-- A subscription whose first round fails, and two messages.
abbrev events : List (Event ℕ)
events =
    subscribing true "c" 4
    ∷ pushing
    ∷ waking
    ∷ publishing "c" 7
    ∷ publishing "c" 8
    ∷ working false false
    ∷ working false false
    ∷ working false false
    ∷ working true false
    ∷ working false false
    ∷ working false false
    ∷ working false false
    ∷ pushing
    ∷ waking
    ∷ working false false
    ∷ working false false
    ∷ working false false
    ∷ working false false
    ∷ executing false "c"
    ∷ executing false "c"
    ∷ executing false "c"
    ∷ executing false "c"
    ∷ executing false "c"
    ∷ executing false "c"
    ∷ executing false "c"
    ∷ []

abbrev after : List (Event ℕ) → RedisBus ℕ
unfolding run step subscribe unsubscribe publish push_op wake rotate_callers work exec
after es = elim (run es new_redis_message_bus) [ none ↦ new_redis_message_bus | some r ↦ r ]

abbrev settled : RedisBus ℕ
settled = after events

events_sent : (settled.posts "c").tried ≡ (7, false) ∷ (8, false) ∷ []
unfolding run step subscribe append_sub publish push_op wake rotate_callers work exec exec_post
    begin_round end_round pop_op new_redis_message_bus
events_sent = refl

events_current : settled.current ≡ "c" ∷ []
unfolding run step subscribe append_sub publish push_op wake rotate_callers work exec exec_post
    begin_round end_round pop_op new_redis_message_bus
events_current = refl

reached : Reach new_redis_message_bus settled
unfolding run step subscribe append_sub publish push_op wake rotate_callers work exec exec_post
    begin_round end_round pop_op new_redis_message_bus
reached = run-Reach new_redis_message_bus events new_redis_message_bus settled begins refl

-- The entry of "c" as it was set, the last first.
abbrev chain : List (Post ℕ) → String → Post ℕ
chain [] = λ o. no_post
chain (p ∷ ps) = update "c" p (chain ps)

chain-absent : (ps : List (Post ℕ)) (c : String) → ("c" == c) ≡ false → (chain ps c).stage ≡ absent
chain-absent [] c e = refl
chain-absent (p ∷ ps) c e = rw e (chain-absent ps c e)

ends-absent :
    (p : Post ℕ) (ps : List (Post ℕ)) (c : String)
    → p.stage ≡ absent
    → (chain (p ∷ ps) c).stage ≡ absent
ends-absent p ps c e = elim (Bool-cases ("c" == c)) [
  | inl same ↦ rw same e
  | inr other ↦ rw other (chain-absent ps c other)
]

abbrev entry : List ℕ → Stage ℕ → List ℕ → List (ℕ × Bool) → Post ℕ
entry queue stage given tried = record {
  queue = queue;
  stage = stage;
  given = given;
  tried = tried;
}

abbrev both : List ℕ
both = 7 ∷ 8 ∷ []

abbrev both_tried : List (ℕ × Bool)
both_tried = (7, false) ∷ (8, false) ∷ []

abbrev entries : List (Post ℕ)
entries =
    entry [] checking both both_tried
    ∷ entry [] draining both both_tried
    ∷ entry [] (sending 8) both ((7, false) ∷ [])
    ∷ entry (8 ∷ []) draining both ((7, false) ∷ [])
    ∷ entry (8 ∷ []) (sending 7) both []
    ∷ entry both draining both []
    ∷ entry both checking both []
    ∷ entry both waiting both []
    ∷ entry (7 ∷ []) waiting (7 ∷ []) []
    ∷ []

settled_posts : settled.posts ≡ chain (entry [] absent both both_tried ∷ entries)
unfolding run step subscribe append_sub publish push_op wake rotate_callers work exec exec_post
    begin_round end_round pop_op new_redis_message_bus
settled_posts = refl

settled-absent : (c : String) → (settled.posts c).stage ≡ absent
settled-absent c =
    ap (λ f. (f c).stage) settled_posts
    ∙ ends-absent (entry [] absent both both_tried) entries c refl

absent-none :
    (r : RedisBus ℕ) (c : String) → (r.posts c).stage ≡ absent → step (executing false c) r ≡ none
unfolding step exec exec_post
absent-none r c e = simp (e, exec, exec_post) refl

settled-Quiet : Quiet settled
unfolding run step subscribe append_sub publish push_op wake rotate_callers work exec exec_post
    begin_round end_round pop_op new_redis_message_bus
settled-Quiet = record {
  unheld = refl;
  no_push = refl;
  no_wake = refl;
  no_work = refl;
  no_exec = λ c. absent-none settled c (settled-absent c);
}

quiet_lem_example :
    ((messages (settled.posts "c").tried ≡ (settled.posts "c").given)
      × (elem "c" settled.current ≡ desired settled "c"))
quiet_lem_example = quiet_lem settled reached settled-Quiet "c"

Reach-Sound_example : Sound settled
Reach-Sound_example = Reach-Sound settled reached

step-Advance_example :
    Advance
      (act_of "c" (publishing "c" 9))
      (outbox (settled.posts "c"))
      (outbox ((publish "c" 9 settled).posts "c"))
unfolding step after new_redis_message_bus
step-Advance_example =
    step-Advance (publishing "c" 9) settled (publish "c" 9 settled) reached refl "c"

-- Locks that are held for good.
abbrev lock : List String → String → List String × Bool
lock s k = if elem k s then (s, false) else (k ∷ s, true)

lock-new :
    (s : List String) (k : String)
    → (lock s k).1 ≡ true
    → (elem k s ≡ false) × (elem k (lock s k).0 ≡ true)
lock-new s k h = elim (Bool-cases (elem k s)) [
  | inl was ↦ absurd (let both : false ≡ true = rw was at h in cc)
  | inr free ↦ (free, rw (free, ==_refl k) refl)
]

lock-lasts : (s : List String) (k o : String) → elem o s ≡ true → elem o (lock s k).0 ≡ true
lock-lasts s k o h = elim (Bool-cases (elem k s)) [
  | inl was ↦ rw was h
  | inr free ↦ rw (free, h) (ground arith)
]

abbrev keys_held : Locks (List String)
keys_held = record {
  held = λ s k. elem k s;
  set_nx = lock;
  acquires = lock-new;
  lasts = lock-lasts;
}

read_each-distinct_example :
    distinct (read_each keys_held (λ b. b) [] (("x" ∷ []) ∷ ("x" ∷ "y" ∷ []) ∷ [])) ≡ true
read_each-distinct_example =
    read_each-distinct keys_held (λ b. b) [] (("x" ∷ []) ∷ ("x" ∷ "y" ∷ []) ∷ [])
