-- ===== src/Opening/OpenRequest.antt =====
-- pkg/server/stream.go: `handleOpenRequest`. The bus, the affinity function, the client and the handler
-- are given by what they answer, and what else closes the stream by what it has done.
use livekit_psrpc.Prelude.{
  String, Bool, true, false, List, Option, none, some, Result, ok, err, string_equality,
  if◌then◌else◌,
}
use livekit_psrpc.Errors.Value.{GoError}
use livekit_psrpc.Selection.Affinity.{Float32}
use livekit_psrpc.Opening.Elsewhere.{Elsewhere, closed_by, is_some, streams_left}
use livekit_psrpc.Selection.Claiming.{claim_request, goes_on}

pub record OpenRequest : Type 0 where
  pub request_id : String
  pub stream_id : String

pub record OpenAnswers (D : Type 0) : Type 0 where
  pub affinity : Option Float32
  pub publish_claim : Option (GoError D)
  pub answer : Option String
  pub ack : Option (GoError D)
  pub handler : Option (GoError D)
  pub hijacked : Bool
  pub elsewhere : Elsewhere (Option (GoError D))

-- The two maps of a streamHandler.
pub record HandlerMaps (C S : Type 0) : Type 0 where
  pub claims : List (String × C)
  pub streams : List (String × S)

-- What became of an open request: whether the handler ran, the cause with which the stream is closed, if
-- it is, the maps, and what was returned.
pub record OpenServed (D C S : Type 0) : Type 0 where
  pub handled : Bool
  pub closed_with : Option (Option (GoError D))
  pub maps : HandlerMaps C S
  pub result : Option (GoError D)

-- `if !claimed { return err }`
abbrev pub claim_error : {D : Type 0} → Result (GoError D) Bool → Option (GoError D)
claim_error (ok b) = none
claim_error (err e) = some e

module _ {D : Type 0} where
  -- The cause of its own Close, if there is one.
  abbrev pub own_cause : OpenAnswers D → Option (Option (GoError D))
  own_cause out = elim out.ack [
    | some e ↦ some (some e)
    | none ↦ if out.hijacked then none else some out.handler
  ]

module _ {D C S : Type 0} where
  -- From `NewStream` on.
  unfoldable pub serve_stream : OpenRequest → OpenAnswers D → S → HandlerMaps C S → OpenServed D C S
  serve_stream is out ss m =
      let own = own_cause out in
      record {
        handled = elim out.ack [ some e ↦ false | none ↦ true ];
        closed_with = closed_by out.elsewhere own;
        maps = record m {
          streams = streams_left out.elsewhere (is_some own) is.stream_id ss m.streams;
        };
        result = out.ack;
      }

  unfoldable pub handle_open_request :
      Bool → String → OpenRequest → C → S → OpenAnswers D → HandlerMaps C S → OpenServed D C S
  unfolding claim_request serve_stream
  handle_open_request require_claim server_id is chan ss out m =
      if require_claim
      then (let run =
            claim_request server_id is.request_id out.affinity chan out.publish_claim out.answer
              m.claims in
          let m' : HandlerMaps C S = record m { claims = run.claims } in
          if goes_on run.result then serve_stream is out ss m' else record {
            handled = false;
            closed_with = none;
            maps = m';
            result = claim_error run.result;
          })
      else serve_stream is out ss m
