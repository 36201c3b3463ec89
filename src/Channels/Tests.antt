-- ===== src/Channels/Tests.antt =====
-- Channel names of a small service, and the theorems at them.
use livekit_psrpc.Prelude.{◌≡◌, refl, arith, true, false, List, [], ◌∷◌, Text, runes}
use livekit_psrpc.Channels.Format.{append_sanitized_channel_part, format_channel}
use livekit_psrpc.Channels.Names.{RequestInfo, get_rpc_channel, get_handler_key}
use livekit_psrpc.Channels.Format.{append_channel_parts, append_part, append_texts}
use livekit_psrpc.Channels.Keys.{IsNamed, handler_key-injective}
use livekit_psrpc.Channels.Server.{queue_channel-collides}

hash_escaped :
    append_sanitized_channel_part [] (35 ∷ 0x4e16 ∷ 0x1f600 ∷ []) ≡ runes "u+0023u+4e16U+0001f600"
unfolding append_sanitized_channel_part
hash_escaped = refl

abbrev request : List Text → RequestInfo
request topic = record {
  service = runes "room";
  method = runes "get";
  topic = topic;
  multi = false;
  affinity_enabled = false;
  require_claim = true;
  queue = true;
}

-- The names of the channels that the package's tests and comments show.
rpc_names : (get_rpc_channel (request (runes "a.b" ∷ []))).legacy ≡ runes "room|get|au+002eb|REQ"
unfolding get_rpc_channel format_channel append_channel_parts append_part append_texts
    append_sanitized_channel_part
rpc_names = refl

here-IsNamed : IsNamed (request (runes "a" ∷ runes "b" ∷ []))
here-IsNamed = record {
  service_present = ground arith;
  method_present = ground arith;
  topic_present = (ground arith, (ground arith, tt));
  service_runes = omega arith;
  method_runes = omega arith;
  topic_runes = omega arith;
}

abbrev here : RequestInfo
here = request (runes "a" ∷ runes "b" ∷ [])

handler_key-injective_example : (here.method ≡ here.method) × (here.topic ≡ here.topic)
handler_key-injective_example = handler_key-injective here here here-IsNamed here-IsNamed refl

-- A topic with an empty entry has the key of one without entries.
empty_entry : get_handler_key (request ([] ∷ [])) ≡ get_handler_key (request [])
unfolding get_handler_key format_channel append_channel_parts append_part append_texts
    append_sanitized_channel_part
empty_entry = refl

abbrev plain_request : RequestInfo
plain_request = record here { topic = runes "a" ∷ runes "b" ∷ runes "Q" ∷ []; queue = false }

queue_channel-collides_example :
    (get_rpc_channel here).server ≡ (get_rpc_channel plain_request).server
queue_channel-collides_example = queue_channel-collides here plain_request refl refl refl refl
