-- ===== src/Channels/Names.antt =====
-- pkg/info/channels.go, pkg/info/info.go and internal/bus/bus.go: the methods of a service and the
-- channels that a request uses.
use livekit_psrpc.Prelude.{
  Bool, false, List, [], ◌∷◌, Option, none, some, lookup, insert, Text, runes, text_equality,
}
use livekit_psrpc.Channels.Format.{
  text, texts, format_channel, format_client_channel, format_local_channel, format_server_channel,
}

pub record Channel : Type 0 where
  pub legacy : Text
  pub server : Text
  pub local : Text

pub record MethodInfo : Type 0 where
  pub affinity_enabled : Bool
  pub multi : Bool
  pub require_claim : Bool
  pub queue : Bool

pub record RequestInfo : Type 0 where
  pub service : Text
  pub method : Text
  pub topic : List Text
  pub multi : Bool
  pub affinity_enabled : Bool
  pub require_claim : Bool
  pub queue : Bool

pub record ServiceDefinition : Type 0 where
  pub name : Text
  pub id : Text
  pub methods : List (Text × MethodInfo)

unfoldable pub register_method :
    ServiceDefinition → Text → Bool → Bool → Bool → Bool → ServiceDefinition
register_method s name affinity_enabled multi require_claim queue = record s {
  methods =
      insert name
        (record {
          affinity_enabled = affinity_enabled;
          multi = multi;
          require_claim = require_claim;
          queue = queue;
        })
        s.methods;
}

-- `none` is the panic of the type assertion on a method that was never registered.
unfoldable pub get_info : ServiceDefinition → Text → List Text → Option RequestInfo
get_info s rpc topic = elim (lookup rpc s.methods) [
  | none ↦ none
  | some m ↦ some (record {
    service = s.name;
    method = rpc;
    topic = topic;
    multi = m.multi;
    affinity_enabled = m.affinity_enabled;
    require_claim = m.require_claim;
    queue = m.queue;
  })
]

unfoldable pub get_claim_request_channel : Text → Text → Channel
get_claim_request_channel service client_id = record {
  legacy = format_channel b'|' (text service ∷ text client_id ∷ text (runes "CLAIM") ∷ []);
  server = format_client_channel service client_id (runes "CLAIM");
  local = [];
}

unfoldable pub get_stream_channel : Text → Text → Channel
get_stream_channel service node_id = record {
  legacy = format_channel b'|' (text service ∷ text node_id ∷ text (runes "STR") ∷ []);
  server = format_client_channel service node_id (runes "STR");
  local = [];
}

unfoldable pub get_response_channel : Text → Text → Channel
get_response_channel service client_id = record {
  legacy = format_channel b'|' (text service ∷ text client_id ∷ text (runes "RES") ∷ []);
  server = format_client_channel service client_id (runes "RES");
  local = [];
}

unfoldable pub get_rpc_channel : RequestInfo → Channel
get_rpc_channel i = record {
  legacy =
      format_channel b'|'
        (text i.service ∷ text i.method ∷ texts i.topic ∷ text (runes "REQ") ∷ []);
  server = format_server_channel i.service i.topic i.queue;
  local = format_local_channel i.method (runes "REQ");
}

unfoldable pub get_handler_key : RequestInfo → Text
get_handler_key i = format_channel b'.' (text i.method ∷ texts i.topic ∷ [])

unfoldable pub get_claim_response_channel : RequestInfo → Channel
get_claim_response_channel i = record {
  legacy =
      format_channel b'|'
        (text i.service ∷ text i.method ∷ texts i.topic ∷ text (runes "RCLAIM") ∷ []);
  server = format_server_channel i.service i.topic false;
  local = format_local_channel i.method (runes "RCLAIM");
}

unfoldable pub get_stream_server_channel : RequestInfo → Channel
get_stream_server_channel i = record {
  legacy =
      format_channel b'|'
        (text i.service ∷ text i.method ∷ texts i.topic ∷ text (runes "STR") ∷ []);
  server = format_server_channel i.service i.topic false;
  local = format_local_channel i.method (runes "STR");
}
