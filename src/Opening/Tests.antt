-- ===== src/Opening/Tests.antt =====
-- pkg/client/stream.go and pkg/server/stream.go: a stream that is opened, and one that is not.
use livekit_psrpc.Prelude.{refl, ℕ, String, true, false, [], ◌∷◌, none, some, string_equality}
use livekit_psrpc.Errors.Value.{plain}
use livekit_psrpc.Exchange.Call.{deadline_exceeded}
use livekit_psrpc.Selection.Loop.{SelectionOpts, Texts}
use livekit_psrpc.Opening.OpenStream.{StreamMaps, OpenOutside, OpenedStream, open_stream}
use livekit_psrpc.Opening.Opened.{Opens, open_stream_lem}
use livekit_psrpc.Opening.Elsewhere.{not_closed, is_closing}
use livekit_psrpc.Opening.OpenRequest.{OpenRequest, OpenAnswers, HandlerMaps, handle_open_request}
use livekit_psrpc.Opening.Served.{Outcome, is_claimed, handle_open_request_lem}

abbrev texts : Texts
texts = record { no_servers = λ n. "no servers available"; formatted = λ s. s }

abbrev opts : SelectionOpts String
opts = record {
  minimum_affinity = 0;
  maximum_affinity = 0;
  accept_first_available = true;
  affinity_timeout = 0;
  short_circuit_timeout = 0;
  selection_func = none;
}

-- A server claims the stream, and its ack comes too late.
abbrev late : OpenOutside String
late = record {
  publish_request = none;
  claims = some (record { server_id = "s"; affinity = 1065353216 }) ∷ [];
  publish_claim = none;
  ended = some deadline_exceeded;
  elsewhere = is_closing (plain "context canceled");
}

abbrev maps : StreamMaps ℕ ℕ
maps = record { claim_requests = ("q0", 1) ∷ []; stream_channels = ("t0", 2) ∷ [] }

abbrev opened : OpenedStream String ℕ ℕ
opened = open_stream texts opts true "q" "t" 3 4 late maps

open_stream_lem_example : Opens "q" "t" 3 4 maps texts opts late opened
open_stream_lem_example = open_stream_lem "q" "t" 3 4 maps texts opts true late refl refl

abbrev request : OpenRequest
request = record { request_id = "q"; stream_id = "t" }

abbrev answers : OpenAnswers String
answers = record {
  affinity = none;
  publish_claim = none;
  answer = some "s";
  ack = none;
  handler = some (plain "over");
  hijacked = false;
  elsewhere = not_closed;
}

abbrev held : HandlerMaps ℕ ℕ
held = record { claims = []; streams = ("t0", 1) ∷ [] }

handle_open_request_lem_example :
    Outcome request 5 held
      (is_claimed request 5 held true "s" 6 answers)
      answers
      (handle_open_request true "s" request 6 5 answers held)
handle_open_request_lem_example =
    handle_open_request_lem request 5 held true "s" 6 answers refl refl
