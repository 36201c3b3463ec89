-- ===== src/Options/Client.antt =====
-- client.go, request.go and pkg/client/options.go: the options of clients and requests. A duration is
-- the bit pattern of an int64 in nanoseconds. Hooks and interceptors are values of types of the model.
use livekit_psrpc.Prelude.{
  ℕ, ◌+◌, ◌-◌, ◌^◌, String, Bool, true, false, ◌||◌, List, [], ◌∷◌, ◌++◌, Option, none, some, ltb,
  ◌==◌, nat_equality, if◌then◌else◌,
}
use livekit_psrpc.Selection.Loop.{SelectionOpts}

abbrev pub Duration : Type 0
Duration = ℕ

-- The order of int64s on their bit patterns.
abbrev pub signed_key : Duration → ℕ
signed_key d = if ltb d (2 ^ 63) then 2 ^ 63 + d else d - 2 ^ 63

abbrev pub longer : Duration → Duration → Bool
longer a b = ltb (signed_key b) (signed_key a)

abbrev pub default_client_timeout : Duration
default_client_timeout = 3000000000

abbrev pub default_affinity_timeout : Duration
default_affinity_timeout = 1000000000

abbrev pub default_affinity_short_circuit : Duration
default_affinity_short_circuit = 200000000

abbrev pub default_channel_size : ℕ
default_channel_size = 100

pub record ClientOpts (I : Type 0) : Type 0 where
  pub client_id : String
  pub timeout : Duration
  pub selection_timeout : Duration
  pub channel_size : ℕ
  pub enable_streams : Bool
  pub interceptors : List I

pub record RequestOpts (D I : Type 0) : Type 0 where
  pub timeout : Duration
  pub selection_opts : SelectionOpts D
  pub interceptors : List I

-- `for _, opt := range opts { opt(o) }`
abbrev pub apply_all : {O : Type 0} → List (O → O) → O → O
apply_all [] o = o
apply_all (opt ∷ opts) o = apply_all opts (opt o)

module _ {I : Type 0} where
  unfoldable pub with_streams : ClientOpts I → ClientOpts I
  with_streams o = record o { enable_streams = true }

  unfoldable pub get_client_opts : List (ClientOpts I → ClientOpts I) → ClientOpts I
  get_client_opts opts = apply_all opts (record {
    client_id = "";
    timeout = 0;
    selection_timeout = default_affinity_timeout;
    channel_size = default_channel_size;
    enable_streams = false;
    interceptors = [];
  })

-- The timeout from the client's one and from the time until the deadline of the context, if it has one.
unfoldable pub within_deadline : Duration → Option Duration → Duration
within_deadline timeout none = timeout
within_deadline timeout (some dt) = if timeout == 0 || longer timeout dt then dt else timeout

unfoldable pub request_timeout : Duration → Option Duration → Duration
unfolding within_deadline
request_timeout timeout deadline =
    let bounded = within_deadline timeout deadline in
    if bounded == 0 then default_client_timeout else bounded

unfoldable pub default_selection : {D : Type 0} → Bool → Duration → SelectionOpts D
default_selection affinity_enabled selection_timeout =
    if affinity_enabled
    then record {
      minimum_affinity = 0;
      maximum_affinity = 0;
      accept_first_available = false;
      affinity_timeout = selection_timeout;
      short_circuit_timeout = default_affinity_short_circuit;
      selection_func = none;
    }
    else record {
      minimum_affinity = 0;
      maximum_affinity = 0;
      accept_first_available = true;
      affinity_timeout = selection_timeout;
      short_circuit_timeout = 0;
      selection_func = none;
    }

-- A RequestOption that sets the timeout.
unfoldable pub with_request_timeout : {D I : Type 0} → Duration → RequestOpts D I → RequestOpts D I
with_request_timeout timeout o = record o { timeout = timeout }

module _ {D I : Type 0} where
  unfoldable pub get_request_opts :
      Option Duration
      → Bool
      → ClientOpts I
      → List (RequestOpts D I → RequestOpts D I)
      → RequestOpts D I
  unfolding request_timeout default_selection
  get_request_opts deadline affinity_enabled options opts = apply_all opts (record {
    timeout = request_timeout options.timeout deadline;
    selection_opts = default_selection affinity_enabled options.selection_timeout;
    interceptors = [];
  })

-- `none` is the panic on a value that is no interceptor of the type asked for.
unfoldable pub append_interceptors :
    {I A : Type 0} → (A → Option I) → List I → List A → Option (List I)
append_interceptors cast base [] = some base
append_interceptors cast base (a ∷ as') = elim (cast a) [
  | none ↦ none
  | some i ↦ append_interceptors cast (base ++ i ∷ []) as'
]
