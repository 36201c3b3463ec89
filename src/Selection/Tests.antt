-- ===== src/Selection/Tests.antt =====
-- pkg/client/rpc.go and pkg/server/rpc.go: runs of the selection of a server, and instances of its
-- theorems.
use livekit_psrpc.Prelude.{
  Bool, ℕ, ◌*◌, ◌^◌, ◌≡◌, ◌⊎◌, inr, refl, String, true, false, List, [], ◌∷◌, ◌++◌, Option, none,
  some, Result, ok, err, string_equality,
}
use livekit_psrpc.Errors.Codes
use livekit_psrpc.Errors.Value.{GoError, new_errorf}
use livekit_psrpc.Selection.Affinity.{Float32}
use livekit_psrpc.Selection.Best.{IsBest, NoneAbove}
use livekit_psrpc.Selection.Loop.{
  Claim, SelectionOpts, Event, done, claim, response, Texts, keep, at_done, on_response,
  select_loop, select_server, err_no_response,
}
use livekit_psrpc.Selection.Runs.{claims_of, eligible}
use livekit_psrpc.Selection.Verdict.{failure, verdict, select-IsBest}
use livekit_psrpc.Selection.Claiming.{claim_request, Claimant, one, handling, handling_one}

abbrev plain_texts : Texts
plain_texts = record { no_servers = λ n. "no servers available"; formatted = λ s. s }

-- 0.5, 2 and the NaN of the default pattern, as float32.
abbrev half : Float32
half = 126 * 2 ^ 23

abbrev two : Float32
two = 2 ^ 30

abbrev nan : Float32
nan = 511 * 2 ^ 22

abbrev best_options : SelectionOpts String
best_options = record {
  minimum_affinity = half;
  maximum_affinity = 0;
  accept_first_available = false;
  affinity_timeout = 0;
  short_circuit_timeout = 0;
  selection_func = none;
}

abbrev first_options : SelectionOpts String
first_options = record best_options { accept_first_available = true }

abbrev last_of : List Claim → Result (GoError String) String
last_of [] = ok ""
last_of (c ∷ cs) = ok c.server_id

abbrev func_options : SelectionOpts String
func_options = record best_options { selection_func = some last_of }

abbrev three_claims : List Event
three_claims =
    claim (record { server_id = "a"; affinity = one })
    ∷ claim (record { server_id = "b"; affinity = two })
    ∷ claim (record { server_id = "c"; affinity = nan })
    ∷ claim (record { server_id = "d"; affinity = two })
    ∷ []

best_run : select_server plain_texts best_options (three_claims ++ done ∷ []) ≡ some (ok "b")
unfolding select_server select_loop keep at_done
best_run = refl

first_run : select_server plain_texts first_options three_claims ≡ some (ok "a")
unfolding select_server select_loop
first_run = refl

refused_run :
    select_server plain_texts best_options (
      claim (record { server_id = "a"; affinity = 1 })
      ∷ response "bad request" Codes.malformed_request
      ∷ done
      ∷ [])
    ≡ some (err (new_errorf Codes.malformed_request "bad request"))
unfolding select_server select_loop keep at_done on_response
refused_run = refl

silent_run : select_server plain_texts best_options (done ∷ []) ≡ some (err err_no_response)
unfolding select_server select_loop at_done
silent_run = refl

select-IsBest_example :
    ((c : Claim) × IsBest 0 c (eligible best_options (claims_of three_claims))
      × (select_server plain_texts best_options (three_claims ++ done ∷ [])
          ≡ some (verdict plain_texts three_claims c.server_id)))
    ⊎ (NoneAbove 0 (eligible best_options (claims_of three_claims))
        × (select_server plain_texts best_options (three_claims ++ done ∷ [])
            ≡ some (err (failure plain_texts three_claims))))
select-IsBest_example =
    select-IsBest plain_texts best_options three_claims [] refl
      (inr refl, (inr refl, (inr refl, (inr refl, tt))))

abbrev channel : ℕ
channel = 7

abbrev low_claim : Event
low_claim = claim (record { server_id = "low"; affinity = 1 })

abbrev server : String → Option Float32 → Bool → Claimant String
server id a in_time = record { server_id = id; affinity = a; failed = none; in_time = in_time }

handling_one_example :
    handling "r" channel "b"
      (server "a" none true ∷ server "b" (some half) true ∷ server "c" none false ∷ [])
    ≡ server "b" (some half) true ∷ []
handling_one_example =
    handling_one "r" channel "b" (server "b" (some half) true) (server "a" none true ∷ [])
      (server "c" none false ∷ []) (refl, tt) (refl, tt) refl

-- The server that was chosen has given up, and nobody handles the request.
nobody_handles : handling "r" channel "b" (server "a" none true ∷ server "b" none false ∷ []) ≡ []
unfolding claim_request
nobody_handles = refl
