-- ===== src/Redis/Does.antt =====
-- internal/bus/bus_redis.go: what a step does, by its event.
use livekit_psrpc.Prelude.{
  ◌≡◌, refl, subst, Bool, true, false, not, ◌&&◌, some-injective, some, string_equality,
  nat_equality,
}
use livekit_psrpc.Redis.State.{RedisBus}
use livekit_psrpc.Redis.Steps.{publish}
use livekit_psrpc.Redis.Worker.{
  exec, Event, subscribing, unsubscribing, publishing, pushing, waking, rotating, working,
  executing, step, unless, holding, letting_go, worker_locks, exec_locks,
}
use livekit_psrpc.Redis.Touches.{subscribe-Touches, unsubscribe-Touches}
use livekit_psrpc.Redis.Moves.{
  Moves, Rest, rests, touched, lock_moved, unless-some, publish-Moves, exec-Moves, work-Rest,
  push_op-Rest, rotate_callers-Rest, wake-Rest,
}

module _ {B : Type 0} where
  -- A step that waits for a lock, when it is possible.
  possible :
      (P : RedisBus B → Type 0) (waits : Bool) (t r' : RedisBus B)
      → unless waits (some t) ≡ some r'
      → P t
      → P r'
  possible P waits t r' e m = subst P (some-injective t r' (unless-some waits (some t) r' e)) m

  -- What a step does, by its event.
  abbrev pub Does : Event B → RedisBus B → RedisBus B → Type 0
  Does (publishing c b) r r' = publish c b r ≡ r'
  Does (executing failed c) r r' = exec failed c r ≡ some r'
  Does _ r r' = Rest r r'

  pub step-Does : (e : Event B) (r r' : RedisBus B) → step e r ≡ some r' → Does e r r'
  unfolding step
  step-Does (subscribing queue c size) r r' e =
      possible (Rest r) r.held _ r' e (touched (subscribe-Touches queue c size r))
  step-Does (unsubscribing queue c id) r r' e =
      possible (Rest r) r.held _ r' e (touched (unsubscribe-Touches queue c id r))
  step-Does (publishing c b) r r' e = some-injective (publish c b r) r' (unless-some r.held _ r' e)
  step-Does pushing r r' e = push_op-Rest r r' r.callers refl e
  step-Does waking r r' e = wake-Rest r r' e
  step-Does rotating r r' e = rotate_callers-Rest r r' r.callers refl e
  step-Does (working sub_err unsub_err) r r' e =
      work-Rest sub_err unsub_err r r' r.worker refl
        (unless-some (worker_locks r.worker && r.held) _ r' e)
  step-Does (executing failed c) r r' e =
      unless-some (exec_locks (r.posts c).stage && r.held) _ r' e
  step-Does holding r r' e = possible (Rest r) r.held _ r' e (lock_moved true)
  step-Does letting_go r r' e = possible (Rest r) (not r.held) _ r' e (lock_moved false)

  Does-Moves : (e : Event B) (r r' : RedisBus B) → Does e r r' → Moves r r'
  Does-Moves (publishing c b) r r' d = subst (Moves r) d (publish-Moves c b r)
  Does-Moves (executing failed c) r r' d = exec-Moves failed c r r' d
  Does-Moves (subscribing queue c size) r r' d = rests d
  Does-Moves (unsubscribing queue c id) r r' d = rests d
  Does-Moves pushing r r' d = rests d
  Does-Moves waking r r' d = rests d
  Does-Moves rotating r r' d = rests d
  Does-Moves (working sub_err unsub_err) r r' d = rests d
  Does-Moves holding r r' d = rests d
  Does-Moves letting_go r r' d = rests d

  pub step-Moves : (e : Event B) (r r' : RedisBus B) → step e r ≡ some r' → Moves r r'
  step-Moves e r r' h = Does-Moves e r r' (step-Does e r r' h)
