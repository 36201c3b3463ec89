-- ===== src/Handlers/Life.antt =====
-- pkg/server/rpc.go: a handler from its creation to the end of `close`, in steps of its goroutines.
use livekit_psrpc.Prelude.{
  ℕ, ◌+◌, ◌-◌, Bool, true, false, not, ◌&&◌, List, [], ◌∷◌, Option, none, some, ◌==◌, nat_equality,
  if◌then◌else◌,
}

-- The body of `closeOnce`: not called, at `handling.Wait`, behind it, or over.
pub data Closing : Type 0 where
  idle : Closing
  waiting : Closing
  waited : Closing
  over : Closing

-- `buffered` are the requests in the subscription, `spawned` the goroutines before `handling.Add`,
-- `handling` the counter of the wait group, `looping` whether the goroutine of `run` goes on, and
-- `completions` how often `onCompleted` was called.
pub record Life : Type 0 where
  pub sub_open : Bool
  pub buffered : ℕ
  pub spawned : ℕ
  pub handling : ℕ
  pub closing : Closing
  pub claims_open : Bool
  pub completions : ℕ
  pub complete : Bool
  pub looping : Bool

unfoldable pub new_life : Life
new_life = record {
  sub_open = true;
  buffered = 0;
  spawned = 0;
  handling = 0;
  closing = idle;
  claims_open = true;
  completions = 0;
  complete = false;
  looping = true;
}

-- A request comes, `run` takes one, which may have expired, or ends; a goroutine starts to handle one or
-- ends; `close` begins, is done with waiting, or ends.
pub data Event : Type 0 where
  arrives : Event
  takes : Bool → Event
  stops : Event
  starts : Event
  finishes : Event
  closes : Bool → Event
  waits : Event
  ends : Event

abbrev pub is_idle : Closing → Bool
is_idle idle = true
is_idle waiting = false
is_idle waited = false
is_idle over = false

abbrev pub is_waiting : Closing → Bool
is_waiting idle = false
is_waiting waiting = true
is_waiting waited = false
is_waiting over = false

abbrev pub is_waited : Closing → Bool
is_waited idle = false
is_waited waiting = false
is_waited waited = true
is_waited over = false

unfoldable pub step : Event → Life → Option Life
step arrives s = if s.sub_open then some (record s { buffered = s.buffered + 1 }) else none
step (takes expired) s =
    if s.looping && not (s.buffered == 0)
    then some (record s {
      buffered = s.buffered - 1;
      spawned = if expired then s.spawned else s.spawned + 1;
    })
    else none
step stops s = if s.looping && s.complete then some (record s { looping = false }) else none
step starts s =
    if not (s.spawned == 0)
    then some (record s { spawned = s.spawned - 1; handling = s.handling + 1 })
    else none
step finishes s =
    if not (s.handling == 0) then some (record s { handling = s.handling - 1 }) else none
step (closes force) s =
    if is_idle s.closing
    then some (record s { sub_open = false; closing = if force then waited else waiting })
    else none
step waits s =
    if is_waiting s.closing && s.handling == 0 then some (record s { closing = waited }) else none
step ends s =
    if is_waited s.closing
    then some (record s {
      claims_open = false;
      completions = s.completions + 1;
      complete = true;
      closing = over;
    })
    else none

unfoldable pub run : List Event → Life → Option Life
unfolding step
run [] s = some s
run (e ∷ es) s = elim (step e s) [ none ↦ none | some s' ↦ run es s' ]

abbrev pub ended_count : Closing → ℕ
ended_count idle = 0
ended_count waiting = 0
ended_count waited = 0
ended_count over = 1
