-- ===== src/Options/Tests.antt =====
-- pkg/client/options.go: the options of a request in two contexts.
use livekit_psrpc.Prelude.{ℕ, ◌≤◌, ◌≡◌, ◌⊎◌, refl, arith, String, true, false, [], ◌∷◌, none, some}
use livekit_psrpc.Options.Client.{
  RequestOpts, ClientOpts, get_client_opts, get_request_opts, request_timeout, within_deadline,
  with_streams, signed_key,
}
use livekit_psrpc.Options.Timeout.{request_timeout_bounds}

abbrev options : ClientOpts ℕ
options = record {
  client_id = "c";
  timeout = 2000;
  selection_timeout = 5;
  channel_size = 100;
  enable_streams = false;
  interceptors = [];
}

streams_run : (get_client_opts {I = ℕ} (with_streams ∷ [])).enable_streams ≡ true
unfolding get_client_opts with_streams
streams_run = refl

default_run :
    (get_request_opts {D = String} none false (record options { timeout = 0 }) []).timeout
    ≡ 3000000000
unfolding get_request_opts request_timeout within_deadline
default_run = refl

deadline_run : (get_request_opts {D = String} (some 900) false options []).timeout ≡ 900
unfolding get_request_opts request_timeout within_deadline
deadline_run = refl

option_run :
    (get_request_opts {D = String}
      (some 900)
      true
      options
      ((λ o. record o { timeout = 7 }) ∷ [])).timeout
    ≡ 7
unfolding get_request_opts request_timeout within_deadline
option_run = refl

-- An option that does not set the timeout.
abbrev intercepted : RequestOpts String ℕ → RequestOpts String ℕ
intercepted o = record o { interceptors = 1 ∷ [] }

request_timeout_bounds_example :
    (signed_key (get_request_opts (some 900) true options (intercepted ∷ [])).timeout
      ≤ signed_key 900)
    × ((options.timeout ≡ 0)
        ⊎ (signed_key (get_request_opts (some 900) true options (intercepted ∷ [])).timeout
            ≤ signed_key 2000))
request_timeout_bounds_example =
    request_timeout_bounds options true (intercepted ∷ []) 900 ((λ o. refl), tt)
      (λ e. absurd (omega arith))
