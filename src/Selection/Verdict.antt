-- ===== src/Selection/Verdict.antt =====
-- pkg/client/rpc.go: what `selectServer` returns.
use livekit_psrpc.Prelude.{
  ◌≡◌, ◌⊎◌, inl, inr, refl, sym, ap, ◌∙◌, String, true, false, List, [], ◌∷◌, ◌++◌, none, some,
  if◌then◌else◌, Bool-cases, Option-cases, Every, length, ltb, ◌==◌, string_equality, Result, ok,
  err, arith,
}
use livekit_psrpc.Errors.Codes
use livekit_psrpc.Errors.Value.{GoError, new_errorf}
use livekit_psrpc.Selection.Affinity.{Float32}
use livekit_psrpc.Selection.Best.{IsBest, NoneAbove, lead, lead_lem}
use livekit_psrpc.Selection.Loop.{
  Claim, SelectionOpts, Event, done, claim, Texts, Selection, no_selection, err_no_response,
  is_eligible, is_taken, at_done, select_loop, select_server,
}
use livekit_psrpc.Selection.Runs.{
  claims_of, Continues, eligible, last_error, absorb, loop-Continues,
}
use livekit_psrpc.Selection.Collected.{absorb-lead, absorb-count, absorb-res_err, absorb-claims}

module _ {D : Type 0} (texts : Texts) (es : List Event) where
  -- The error when no server was found: that of the last response that has one, or by whether a claim
  -- came at all.
  abbrev pub failure : GoError D
  failure = elim (last_error {D = D} texts none es) [
    | some e ↦ e
    | none ↦
        if ltb 0 (length (claims_of es))
        then new_errorf Codes.unavailable (texts.no_servers (length (claims_of es)))
        else err_no_response
  ]

  abbrev pub verdict : String → Result (GoError D) String
  verdict id = if id == "" then err failure else ok id

  failure_error : (e : GoError D) → last_error texts none es ≡ some e → failure ≡ e
  failure_error e h = rw (h, failure) refl

  failure_claims :
      last_error {D = D} texts none es ≡ none
      → ltb 0 (length (claims_of es)) ≡ true
      → failure ≡ new_errorf Codes.unavailable (texts.no_servers (length (claims_of es)))
  failure_claims h g = rw (h, failure) rw g refl

  failure_nothing :
      last_error {D = D} texts none es ≡ none
      → ltb 0 (length (claims_of es)) ≡ false
      → failure ≡ err_no_response
  failure_nothing h g = rw (h, failure) rw g refl

module _ {D : Type 0} (texts : Texts) (opts : SelectionOpts D) (es rest : List Event) where
  done_lem :
      (s : Selection D) (id : String)
      → opts.selection_func ≡ none
      → s.server_id ≡ id
      → s.claim_count ≡ length (claims_of es)
      → s.res_err ≡ last_error texts none es
      → at_done texts opts s ≡ verdict texts es id
  unfolding at_done
  done_lem s id d i n r = elim (Bool-cases (id == "")) [
    | inr h ↦ rw d rw i rw h refl
    | inl h ↦ elim (Option-cases (last_error {D = D} texts none es)) [
      | inr (e, he) ↦
          let ends : at_done texts opts s ≡ err e = rw d rw i rw h rw r rw he refl in
          ends ∙ rw h (ap err (sym (failure_error texts es e he)))
      | inl he ↦ elim (Bool-cases (ltb 0 (length (claims_of es)))) [
        | inl g ↦
            let ends : at_done texts opts s
                ≡ err (new_errorf Codes.unavailable (texts.no_servers (length (claims_of es)))) =
              rw d rw i rw h rw r rw he rw n rw g refl in
            ends ∙ rw h (ap err (sym (failure_claims texts es he g)))
        | inr g ↦
            let ends : at_done texts opts s ≡ err err_no_response =
              rw d rw i rw h rw r rw he rw n rw g refl in
            ends ∙ rw h (ap err (sym (failure_nothing texts es he g)))
      ]
    ]
  ]

  run_done :
      Every (Continues opts) es
      → select_server texts opts (es ++ done ∷ rest)
        ≡ some (at_done texts opts (absorb texts opts no_selection es))
  unfolding select_server select_loop
  run_done h = loop-Continues texts opts no_selection es (done ∷ rest) h

  run_led :
      (id : String) (a : Float32)
      → opts.selection_func ≡ none
      → Every (Continues opts) es
      → lead "" 0 (eligible opts (claims_of es)) ≡ (id, a)
      → select_server texts opts (es ++ done ∷ rest) ≡ some (verdict texts es id)
  run_led id a d h e =
      let (led, by) = absorb-lead texts opts no_selection es "" 0 d refl refl in
      run_done h
      ∙ ap some (
          done_lem _ id d (led ∙ ap (λ p. p.0) e)
            (absorb-count texts opts no_selection es ∙ omega arith)
            (absorb-res_err texts opts no_selection es none refl))

  -- Without a `SelectionFunc`, when the context is done behind events of which none is a claim to take
  -- at once: the server of the eligible claim of the best affinity above 0, the first of its equals, is
  -- selected, unless its name is empty. If there is no such claim, or its server has no name, the result
  -- is an error: that of the last response with an error, else Unavailable if a claim came and
  -- ErrNoResponse if none did.
  pub select-IsBest :
      opts.selection_func ≡ none
      → Every (Continues opts) es
      → ((c : Claim) × IsBest 0 c (eligible opts (claims_of es))
          × (select_server texts opts (es ++ done ∷ rest) ≡ some (verdict texts es c.server_id)))
        ⊎ (NoneAbove 0 (eligible opts (claims_of es))
            × (select_server texts opts (es ++ done ∷ rest) ≡ some (err (failure texts es))))
  select-IsBest d h = elim (lead_lem (eligible opts (claims_of es)) "" 0) [
    | inl (c, best, e) ↦ inl (c, best, run_led c.server_id c.affinity d h e)
    | inr (low, e) ↦ inr (low, run_led "" 0 d h e)
  ]

  done_func :
      (s : Selection D) (f : List Claim → Result (GoError D) String)
      → opts.selection_func ≡ some f
      → at_done texts opts s ≡ f s.claims
  unfolding at_done
  done_func s f d = rw d refl

  -- With a `SelectionFunc`, when the context is done behind events of which none is a claim to take at
  -- once: the function decides, and is given the eligible claims in the order of their arrival.
  pub select_by_func :
      (f : List Claim → Result (GoError D) String)
      → opts.selection_func ≡ some f
      → Every (Continues opts) es
      → select_server texts opts (es ++ done ∷ rest) ≡ some (f (eligible opts (claims_of es)))
  select_by_func f d h =
      run_done h
      ∙ ap some (done_func _ f d ∙ ap f (absorb-claims texts opts no_selection es f [] d refl))

  -- The first claim that is eligible and to be taken at once is selected, whatever came before it and
  -- whatever comes behind.
  pub select_taken :
      (c : Claim)
      → Every (Continues opts) es
      → is_eligible opts c ≡ true
      → is_taken opts c ≡ true
      → select_server texts opts (es ++ claim c ∷ rest) ≡ some (ok c.server_id)
  unfolding select_server select_loop
  select_taken c h el tk =
      loop-Continues texts opts no_selection es (claim c ∷ rest) h ∙ rw (el, select_loop) rw tk refl
