-- ===== src/Client/Tests.antt =====
-- pkg/client/client.go and pkg/client/multi.go: runs of a client.
use livekit_psrpc.Prelude.{
  ◌≡◌, ◌⊎◌, refl, ℕ, ◌≤◌, String, true, false, List, [], ◌∷◌, Option, none, some, ok, ◌==◌,
  string_equality, if◌then◌else◌, lookup, length,
}
use livekit_psrpc.Exchange.Wire.{Response, Codec}
use livekit_psrpc.Handlers.Creation.{Sub, AllOrNothing}
use livekit_psrpc.Client.Creation.{ClientChannels, new_rpc_client, client_subs, new_rpc_client_lem}
use livekit_psrpc.Client.Routing.{Chan, route_to, pushed, HasRoom, route_to_lem}
use livekit_psrpc.Client.Multi.{
  MultiRpc, new_multi, route_response, recv, close_multi, take_response, read_out,
}
use livekit_psrpc.Client.Order.{begins, routes, takes, gives, reads, MultiInv, MultiReach-MultiInv}

abbrev channels : ClientChannels
channels = record {
  response_channel = "r";
  claim_request_channel = "c";
  stream_channel = "s";
  enable_streams = true;
}

abbrev no_streams : Sub → Option String
no_streams (c, queue) = if c == "s" then some "refused" else none

new_rpc_client_lem_example :
    AllOrNothing no_streams
      (client_subs no_streams channels)
      []
      (new_rpc_client no_streams channels [])
new_rpc_client_lem_example = new_rpc_client_lem no_streams channels []

abbrev calls : List (String × Chan ℕ)
calls =
    ("a", record { size = 2; buffer = 1 ∷ [] }) ∷ ("b", record { size = 1; buffer = 3 ∷ [] }) ∷ []

route_to_lem_example :
    ((c : Chan ℕ) × (lookup "b" calls ≡ some c)
      × (c.size ≤ length c.buffer)
      × (route_to "b" 4 calls ≡ none))
    ⊎ ((m : List (String × Chan ℕ)) × (route_to "b" 4 calls ≡ some m)
        × HasRoom (lookup "b" calls)
        × ((other : String)
            → lookup other m
              ≡ (if "b" == other then pushed 4 (lookup other calls) else lookup other calls)))
route_to_lem_example = route_to_lem "b" 4 calls

abbrev numbers : Codec ℕ ℕ String
numbers = record { serialize_payload = λ n. ok n; deserialize_payload = λ n. ok n; no_bytes = 0 }

abbrev response : ℕ → Response ℕ String
response n = record {
  request_id = "q";
  server_id = "s";
  sent_at = 0;
  raw_response = n;
  error = "";
  code = "";
  error_details = [];
}

abbrev step_or : {A : Type 0} → A → Option A → A
step_or a none = a
step_or a (some b) = b

-- A response on its whole way, and another one that is taken.
abbrev on_their_way : MultiRpc ℕ ℕ String
unfolding new_multi route_response take_response recv read_out
on_their_way =
    let routed = step_or (new_multi 2) (route_response (response 1) (new_multi 2)) in
    let sent = step_or routed (recv (step_or routed (take_response numbers routed))) in
    let read = step_or sent (read_out sent) in
    let more = step_or read (route_response (response 2) read) in
    step_or more (take_response numbers more)

MultiReach-MultiInv_example : MultiInv numbers on_their_way
unfolding new_multi route_response take_response recv read_out on_their_way
MultiReach-MultiInv_example = MultiReach-MultiInv numbers 2 on_their_way (
    takes
      (routes (response 2) (reads (gives (takes (routes (response 1) begins refl) refl) refl) refl)
        refl)
      refl)

one_read : on_their_way.read ≡ ok 1 ∷ []
unfolding new_multi route_response take_response recv read_out on_their_way
one_read = refl

-- A caller that does not read: both channels are full, and a message is to be sent.
abbrev stuck : MultiRpc ℕ ℕ String
stuck = record {
  channel_size = 1;
  inner = response 3 ∷ [];
  sending = some (ok 2);
  out = ok 1 ∷ [];
  registered = true;
  closed = false;
  routed = response 1 ∷ response 2 ∷ response 3 ∷ [];
  read = [];
}

-- Its goroutine can neither send nor end, and the next response blocks the client's.
stuck-run :
    (recv stuck ≡ none)
    × (close_multi stuck ≡ none)
    × (take_response numbers stuck ≡ none)
    × (route_response (response 4) stuck ≡ none)
unfolding recv close_multi take_response route_response
stuck-run = (refl, refl, refl, refl)
