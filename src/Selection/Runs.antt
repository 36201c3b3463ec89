-- ===== src/Selection/Runs.antt =====
-- pkg/client/rpc.go: what the loop of `selectServer` has collected when it comes to its end.
use livekit_psrpc.Prelude.{
  ◌+◌, ◌≡◌, ◌⊎◌, inl, inr, refl, String, false, List, [], ◌∷◌, ◌++◌, Option, none, some,
  if◌then◌else◌, Bool-cases, Option-cases, Every, ◌==◌, string_equality, Result,
}
use livekit_psrpc.Errors.Value.{GoError, new_errorf}
use livekit_psrpc.Selection.Affinity.{gt}
use livekit_psrpc.Selection.Loop.{
  Claim, SelectionOpts, Event, done, claim, response, Texts, Selection, is_eligible, is_taken, keep,
  on_response, select_loop,
}

abbrev pub claims_of : List Event → List Claim
claims_of [] = []
claims_of (done ∷ es) = claims_of es
claims_of (claim c ∷ es) = c ∷ claims_of es
claims_of (response error code ∷ es) = claims_of es

module _ {D : Type 0} where
  -- An event that the loop goes on after.
  abbrev pub Continues : SelectionOpts D → Event → Type 0
  Continues opts done = ⊥
  Continues opts (claim c) = (is_eligible opts c ≡ false) ⊎ (is_taken opts c ≡ false)
  Continues opts (response error code) = Unit

  -- The claims that count, in the order of arrival.
  abbrev pub eligible : SelectionOpts D → List Claim → List Claim
  eligible opts [] = []
  eligible opts (c ∷ cs) = if is_eligible opts c then c ∷ eligible opts cs else eligible opts cs

  abbrev pub last_error : Texts → Option (GoError D) → List Event → Option (GoError D)
  last_error texts e [] = e
  last_error texts e (done ∷ es) = last_error texts e es
  last_error texts e (claim c ∷ es) = last_error texts e es
  last_error texts e (response error code ∷ es) =
      if error == ""
      then last_error texts e es
      else last_error texts (some (new_errorf code (texts.formatted error))) es

  abbrev pub count : Selection D → Selection D
  count s = record s { claim_count = s.claim_count + 1 }

  abbrev pub absorb : Texts → SelectionOpts D → Selection D → List Event → Selection D
  absorb texts opts s [] = s
  absorb texts opts s (done ∷ es) = absorb texts opts s es
  absorb texts opts s (claim c ∷ es) =
      if is_eligible opts c
      then absorb texts opts (keep opts c (count s)) es
      else absorb texts opts (count s) es
  absorb texts opts s (response error code ∷ es) =
      absorb texts opts (on_response texts error code s) es

  -- Events that the loop goes on after only add to its state.
  pub loop-Continues :
      (texts : Texts) (opts : SelectionOpts D) (s : Selection D) (es rest : List Event)
      → Every (Continues opts) es
      → select_loop texts opts s (es ++ rest) ≡ select_loop texts opts (absorb texts opts s es) rest
  unfolding select_loop
  loop-Continues texts opts s [] rest h = refl
  loop-Continues texts opts s (done ∷ es) rest h = absurd h.0
  loop-Continues texts opts s (response error code ∷ es) rest (h, hs) =
      loop-Continues texts opts (on_response texts error code s) es rest hs
  loop-Continues texts opts s (claim c ∷ es) rest (inl out, hs) =
      rw (out, select_loop) (loop-Continues texts opts (count s) es rest hs)
  loop-Continues texts opts s (claim c ∷ es) rest (inr low, hs) =
      elim (Bool-cases (is_eligible opts c)) [
        | inl in' ↦
            rw (in', select_loop) rw low
              (loop-Continues texts opts (keep opts c (count s)) es rest hs)
        | inr out ↦ rw (out, select_loop) (loop-Continues texts opts (count s) es rest hs)
      ]

  pub keep-none :
      (opts : SelectionOpts D) (c : Claim) (s : Selection D)
      → opts.selection_func ≡ none
      → ((keep opts c s).server_id
          ≡ (if gt c.affinity s.affinity then c.server_id else s.server_id))
        × ((keep opts c s).affinity ≡ (if gt c.affinity s.affinity then c.affinity else s.affinity))
  unfolding keep
  keep-none opts c s d = elim (Bool-cases (gt c.affinity s.affinity)) [
    | inl h ↦ (rw d rw h refl, rw d rw h refl)
    | inr h ↦ (rw d rw h refl, rw d rw h refl)
  ]

  pub keep-some :
      (opts : SelectionOpts D) (c : Claim) (s : Selection D)
      (f : List Claim → Result (GoError D) String)
      → opts.selection_func ≡ some f
      → (keep opts c s).claims ≡ s.claims ++ c ∷ []
  unfolding keep
  keep-some opts c s f d = rw d refl

  pub keep-others :
      (opts : SelectionOpts D) (c : Claim) (s : Selection D)
      → ((keep opts c s).claim_count ≡ s.claim_count) × ((keep opts c s).res_err ≡ s.res_err)
  unfolding keep
  keep-others opts c s = elim (Option-cases opts.selection_func) [
    | inr (f, d) ↦ (rw d refl, rw d refl)
    | inl d ↦ elim (Bool-cases (gt c.affinity s.affinity)) [
      | inl h ↦ (rw d rw h refl, rw d rw h refl)
      | inr h ↦ (rw d rw h refl, rw d rw h refl)
    ]
  ]
