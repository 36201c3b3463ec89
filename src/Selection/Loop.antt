-- ===== src/Selection/Loop.antt =====
-- pkg/client/rpc.go: `selectServer`. An event is what the `select` of one round takes: a claim, a
-- response, or that the context is done, which the caller, the affinity timeout and the short circuit
-- all bring about.
use livekit_psrpc.Prelude.{
  ℕ, ◌+◌, ◌^◌, String, Bool, false, not, ◌&&◌, ◌||◌, List, [], ◌∷◌, ◌++◌, Option, none, some, ltb,
  ◌==◌, string_equality, if◌then◌else◌, Result, ok, err,
}
use livekit_psrpc.Errors.Codes.{ErrorCode}
use livekit_psrpc.Errors.Codes
use livekit_psrpc.Errors.Value.{GoError, new_errorf}
use livekit_psrpc.Selection.Affinity.{Float32, gt, ge}

pub record Claim : Type 0 where
  pub server_id : String
  pub affinity : Float32

-- A duration is the bit pattern of an int64.
pub record SelectionOpts (D : Type 0) : Type 0 where
  pub minimum_affinity : Float32
  pub maximum_affinity : Float32
  pub accept_first_available : Bool
  pub affinity_timeout : ℕ
  pub short_circuit_timeout : ℕ
  pub selection_func : Option (List Claim → Result (GoError D) String)

pub data Event : Type 0 where
  done : Event
  claim : Claim → Event
  response : String → ErrorCode → Event

-- The texts that `fmt.Errorf` makes: of the count of the claims, and of an error of a response taken
-- as a format.
pub record Texts : Type 0 where
  pub no_servers : ℕ → String
  pub formatted : String → String

pub record Selection (D : Type 0) : Type 0 where
  pub shorted : Bool
  pub server_id : String
  pub affinity : Float32
  pub claims : List Claim
  pub claim_count : ℕ
  pub res_err : Option (GoError D)

abbrev pub is_positive : ℕ → Bool
is_positive t = ltb 0 t && ltb t (2 ^ 63)

module _ {D : Type 0} where
  abbrev pub no_selection : Selection D
  no_selection = record {
    shorted = false;
    server_id = "";
    affinity = 0;
    claims = [];
    claim_count = 0;
    res_err = none;
  }

  unfoldable pub err_no_response : GoError D
  unfolding new_errorf
  err_no_response = new_errorf Codes.unavailable "no response from servers"

  -- The conditions on a claim: that it counts, and that it is taken at once.
  abbrev pub is_eligible : SelectionOpts D → Claim → Bool
  is_eligible opts c =
      gt opts.minimum_affinity 0 && ge c.affinity opts.minimum_affinity
      || ge 0 opts.minimum_affinity

  abbrev pub is_taken : SelectionOpts D → Claim → Bool
  is_taken opts c =
      opts.accept_first_available
      || gt opts.maximum_affinity 0 && ge c.affinity opts.maximum_affinity

  -- A claim that counts and is not taken at once.
  unfoldable pub keep : SelectionOpts D → Claim → Selection D → Selection D
  keep opts c s =
      let shorted = s.shorted || is_positive opts.short_circuit_timeout in
      elim opts.selection_func [
        | some f ↦ record s { claims = s.claims ++ c ∷ []; shorted = shorted }
        | none ↦
            if gt c.affinity s.affinity
            then record s { server_id = c.server_id; affinity = c.affinity; shorted = shorted }
            else record s { shorted = shorted }
      ]

  unfoldable pub at_done : Texts → SelectionOpts D → Selection D → Result (GoError D) String
  unfolding err_no_response new_errorf
  at_done texts opts s = elim opts.selection_func [
    | some f ↦ f s.claims
    | none ↦ if not (s.server_id == "") then ok s.server_id else elim s.res_err [
      | some e ↦ err e
      | none ↦
          if ltb 0 s.claim_count
          then err (new_errorf Codes.unavailable (texts.no_servers s.claim_count))
          else err err_no_response
    ]
  ]

  unfoldable pub on_response : Texts → String → ErrorCode → Selection D → Selection D
  unfolding new_errorf
  on_response texts error code s =
      if not (error == "")
      then record s { res_err = some (new_errorf code (texts.formatted error)) }
      else s

  -- The loop, from the state that the earlier events left. `none` waits for one more event.
  unfoldable pub select_loop :
      Texts → SelectionOpts D → Selection D → List Event → Option (Result (GoError D) String)
  unfolding keep at_done on_response
  select_loop texts opts s [] = none
  select_loop texts opts s (done ∷ es) = some (at_done texts opts s)
  select_loop texts opts s (response error code ∷ es) =
      select_loop texts opts (on_response texts error code s) es
  select_loop texts opts s (claim c ∷ es) =
      let counted = record s { claim_count = s.claim_count + 1 } in
      let later = select_loop texts opts counted es in
      let kept = select_loop texts opts (keep opts c counted) es in
      if is_eligible opts c
      then (if is_taken opts c then some (ok c.server_id) else kept)
      else later

  unfoldable pub select_server :
      Texts → SelectionOpts D → List Event → Option (Result (GoError D) String)
  unfolding select_loop
  select_server texts opts es = select_loop texts opts no_selection es
