-- ===== src/Handlers/Streams.antt =====
-- pkg/server/stream.go: the streams of a handler. A step is a stretch under its lock.
use livekit_psrpc.Prelude.{
  String, Bool, true, false, not, ◌&&◌, List, [], ◌∷◌, Option, none, some, ◌==◌, string_equality,
  if◌then◌else◌, elem,
}

-- `opening` are the goroutines of handleOpenRequest before they register their stream, `streams` the
-- registered ones, `ending` those of them that a Close elsewhere has set closed and not taken from the map
-- yet, `to_close` those that `close` has found and not closed yet, and `closing` whether it has begun. The ghost field `late` has those that were opening when it began.
pub record StreamHandler : Type 0 where
  pub opening : List String
  pub streams : List String
  pub ending : List String
  pub draining : Bool
  pub to_close : List String
  pub closing : Bool
  pub complete : Bool
  pub late : List String

unfoldable pub new_stream_handler : StreamHandler
new_stream_handler = record {
  opening = [];
  streams = [];
  ending = [];
  draining = false;
  to_close = [];
  closing = false;
  complete = false;
  late = [];
}

-- The map without a key.
abbrev pub without : String → List String → List String
without id [] = []
without id (s ∷ ss) = let rest = without id ss in if s == id then rest else s ∷ rest

-- The goroutines without one of them.
abbrev pub drop_one : String → List String → List String
drop_one id [] = []
drop_one id (s ∷ ss) = let rest = drop_one id ss in if s == id then ss else s ∷ rest

-- An open request comes; its claim is lost; its stream is registered; a Close elsewhere sets a stream
-- closed, or takes it from the map; `close` begins, closes a stream that it found, or ends.
pub data StreamEvent : Type 0 where
  opens : String → StreamEvent
  declines : String → StreamEvent
  registers : String → StreamEvent
  begins_end : String → StreamEvent
  finishes : String → StreamEvent
  begins_close : StreamEvent
  closes_stream : String → StreamEvent
  ends_close : StreamEvent

abbrev pub is_none_left : List String → Bool
is_none_left [] = true
is_none_left (s ∷ ss) = false

-- The map behind Close of a stream: that of one which is being closed elsewhere returns at once.
unfoldable pub closed_streams : String → StreamHandler → List String
closed_streams id h = if elem id h.ending then h.streams else without id h.streams

unfoldable pub step_stream : StreamEvent → StreamHandler → Option StreamHandler
unfolding closed_streams
step_stream (opens id) h = some (if h.draining then h else record h { opening = id ∷ h.opening })
step_stream (declines id) h =
    if elem id h.opening then some (record h { opening = drop_one id h.opening }) else none
step_stream (registers id) h =
    if elem id h.opening
    then some (record h { opening = drop_one id h.opening; streams = id ∷ h.streams })
    else none
step_stream (begins_end id) h =
    if elem id h.streams && not (elem id h.ending)
    then some (record h { ending = id ∷ h.ending })
    else none
step_stream (finishes id) h =
    if elem id h.ending
    then some (record h { streams = without id h.streams; ending = without id h.ending })
    else none
step_stream begins_close h =
    if not h.closing
    then some (record h { draining = true; closing = true; to_close = h.streams; late = h.opening })
    else none
step_stream (closes_stream id) h =
    if elem id h.to_close
    then some (record h { to_close = without id h.to_close; streams = closed_streams id h })
    else none
step_stream ends_close h =
    if h.closing && is_none_left h.to_close && not h.complete
    then some (record h { complete = true })
    else none

unfoldable pub run_stream : List StreamEvent → StreamHandler → Option StreamHandler
unfolding step_stream
run_stream [] h = some h
run_stream (e ∷ es) h = elim (step_stream e h) [ none ↦ none | some h' ↦ run_stream es h' ]
