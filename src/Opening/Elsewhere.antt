-- ===== src/Opening/Elsewhere.antt =====
-- internal/stream/stream.go: `Close` of a stream that something else may close at the same time: the
-- goroutine of a client's streams, a message of the peer, the close of a handler, or the service.
use livekit_psrpc.Prelude.{
  ◌≡◌, String, Bool, true, false, List, Option, none, some, ◌==◌, string_equality, if◌then◌else◌,
  lookup, insert, delete, lookup-insert,
}
use livekit_psrpc.Selection.Claiming.{delete-insert}

abbrev pub is_some : {A : Type 0} → Option A → Bool
is_some none = false
is_some (some a) = true

-- What another Close has done: nothing, `setClosed` with its cause, or all, with `adapter.Close`, which
-- takes the stream from the map.
pub data Elsewhere (A : Type 0) : Type 0 where
  not_closed : Elsewhere A
  is_closing : A → Elsewhere A
  is_closed : A → Elsewhere A

-- The cause with which the stream is closed, over the cause of one's own Close, if there is one: that of
-- the first `setClosed`.
abbrev pub closed_by : {A : Type 0} → Elsewhere A → Option A → Option A
closed_by not_closed own = own
closed_by (is_closing c) own = some c
closed_by (is_closed c) own = some c

-- Whether the stream is taken from the map: a Close of a stream that is closed returns at once.
abbrev pub is_removed : {A : Type 0} → Elsewhere A → Bool → Bool
is_removed not_closed own = own
is_removed (is_closing c) own = false
is_removed (is_closed c) own = true

-- The map with the stream, behind the closes.
abbrev pub streams_left :
    {A S : Type 0} → Elsewhere A → Bool → String → S → List (String × S) → List (String × S)
streams_left elsewhere own id s m =
    if is_removed elsewhere own then delete id (insert id s m) else insert id s m

module _ {S : Type 0} (id : String) (s : S) (m : List (String × S)) where
  abbrev pub Kept : List (String × S) → Type 0
  Kept m' = (other : String) → lookup other m' ≡ lookup other m

  abbrev pub Held : List (String × S) → Type 0
  Held m' = (other : String) → lookup other m' ≡ (if id == other then some s else lookup other m)

module _ {A S : Type 0} (id : String) (s : S) (m : List (String × S)) where
  -- The stream is in the map while no Close of it is over: if it is closed elsewhere, until that Close is
  -- over, and else just if it is not closed here.
  abbrev pub Left : Elsewhere A → Bool → List (String × S) → Type 0
  Left not_closed true m' = Kept id s m m'
  Left not_closed false m' = Held id s m m'
  Left (is_closing c) own m' = Held id s m m'
  Left (is_closed c) own m' = Kept id s m m'

  pub streams_left-Left :
      (elsewhere : Elsewhere A) (own : Bool)
      → lookup id m ≡ none
      → Left elsewhere own (streams_left elsewhere own id s m)
  streams_left-Left not_closed true fresh = delete-insert id s m fresh
  streams_left-Left not_closed false fresh = λ other. lookup-insert m id other s
  streams_left-Left (is_closing c) own fresh = λ other. lookup-insert m id other s
  streams_left-Left (is_closed c) own fresh = delete-insert id s m fresh
