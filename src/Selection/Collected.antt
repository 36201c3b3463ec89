-- ===== src/Selection/Collected.antt =====
-- pkg/client/rpc.go: the fields of the state that `selectServer` has collected.
use mathlib.Core.List.{append-nil, append_assoc}
use livekit_psrpc.Prelude.{
  ◌+◌, ◌≡◌, inl, inr, refl, sym, ◌∙◌, String, List, [], ◌∷◌, ◌++◌, Option, none, some,
  if◌then◌else◌, Bool-cases, length, ◌==◌, string_equality, Result, arith,
}
use livekit_psrpc.Errors.Value.{GoError, new_errorf}
use livekit_psrpc.Selection.Affinity.{Float32, gt}
use livekit_psrpc.Selection.Best.{lead}
use livekit_psrpc.Selection.Loop.{
  Claim, SelectionOpts, Event, done, claim, response, Texts, Selection, is_eligible, keep,
  on_response,
}
use livekit_psrpc.Selection.Runs.{
  claims_of, eligible, last_error, count, absorb, keep-none, keep-some, keep-others,
}

module _ {D : Type 0} (texts : Texts) (opts : SelectionOpts D) where
  on_response-others :
      (s : Selection D) (error code : String)
      → ((on_response texts error code s).server_id ≡ s.server_id)
        × ((on_response texts error code s).affinity ≡ s.affinity)
        × ((on_response texts error code s).claims ≡ s.claims)
        × ((on_response texts error code s).claim_count ≡ s.claim_count)
  unfolding on_response
  on_response-others s error code = elim (Bool-cases (error == "")) [
    | inl h ↦ (rw h refl, rw h refl, rw h refl, rw h refl)
    | inr h ↦ (rw h refl, rw h refl, rw h refl, rw h refl)
  ]

  pub absorb-lead :
      (s : Selection D) (es : List Event) (id : String) (a : Float32)
      → opts.selection_func ≡ none
      → s.server_id ≡ id
      → s.affinity ≡ a
      → let led = lead id a (eligible opts (claims_of es)) in
        ((absorb texts opts s es).server_id ≡ led.0) × ((absorb texts opts s es).affinity ≡ led.1)
  absorb-lead s [] id a d hi ha = (hi, ha)
  absorb-lead s (done ∷ es) id a d hi ha = absorb-lead s es id a d hi ha
  absorb-lead s (response error code ∷ es) id a d hi ha =
      let (i, f, same, n) = on_response-others s error code in
      absorb-lead (on_response texts error code s) es id a d (i ∙ hi) (f ∙ ha)
  absorb-lead s (claim c ∷ es) id a d hi ha = elim (Bool-cases (is_eligible opts c)) [
    | inr h ↦ rw h (absorb-lead (count s) es id a d hi ha)
    | inl h ↦
        let (i, f) = keep-none opts c (count s) d in
        elim (Bool-cases (gt c.affinity a)) [
          | inl g ↦ rw h rw g (
              absorb-lead (keep opts c (count s)) es c.server_id c.affinity d (i ∙ rw ha rw g refl)
                (f ∙ rw ha rw g refl))
          | inr g ↦ rw h rw g (
              absorb-lead (keep opts c (count s)) es id a d (i ∙ rw ha rw g hi)
                (f ∙ rw ha rw g refl))
        ]
  ]

  pub absorb-count :
      (s : Selection D) (es : List Event)
      → (absorb texts opts s es).claim_count ≡ s.claim_count + length (claims_of es)
  absorb-count s [] = omega arith
  absorb-count s (done ∷ es) = absorb-count s es
  absorb-count s (response error code ∷ es) =
      let (i, f, c, n) = on_response-others s error code in
      absorb-count (on_response texts error code s) es ∙ rw n refl
  absorb-count s (claim c ∷ es) = elim (Bool-cases (is_eligible opts c)) [
    | inr h ↦ rw h (absorb-count (count s) es ∙ omega arith)
    | inl h ↦ rw h (
        absorb-count (keep opts c (count s)) es
        ∙ rw ((keep-others opts c (count s)).0) (omega arith))
  ]

  on_response-res_err :
      (s : Selection D) (error code : String)
      → (on_response texts error code s).res_err
        ≡ (if error == "" then s.res_err else some (new_errorf code (texts.formatted error)))
  unfolding on_response
  on_response-res_err s error code = elim (Bool-cases (error == "")) [
    | inl h ↦ rw h refl
    | inr h ↦ rw h refl
  ]

  pub absorb-res_err :
      (s : Selection D) (es : List Event) (e : Option (GoError D))
      → s.res_err ≡ e
      → (absorb texts opts s es).res_err ≡ last_error texts e es
  absorb-res_err s [] e h = h
  absorb-res_err s (done ∷ es) e h = absorb-res_err s es e h
  absorb-res_err s (response error code ∷ es) e h = elim (Bool-cases (error == "")) [
    | inl g ↦ rw g (
        absorb-res_err (on_response texts error code s) es e
          (on_response-res_err s error code ∙ rw g h))
    | inr g ↦ rw g (
        absorb-res_err (on_response texts error code s) es _
          (on_response-res_err s error code ∙ rw g refl))
  ]
  absorb-res_err s (claim c ∷ es) e h = elim (Bool-cases (is_eligible opts c)) [
    | inr g ↦ rw g (absorb-res_err (count s) es e h)
    | inl g ↦
        rw g (absorb-res_err (keep opts c (count s)) es e ((keep-others opts c (count s)).1 ∙ h))
  ]

  pub absorb-claims :
      (s : Selection D) (es : List Event) (f : List Claim → Result (GoError D) String)
      (cs : List Claim)
      → opts.selection_func ≡ some f
      → s.claims ≡ cs
      → (absorb texts opts s es).claims ≡ cs ++ eligible opts (claims_of es)
  absorb-claims s [] f cs d h = h ∙ sym (append-nil cs)
  absorb-claims s (done ∷ es) f cs d h = absorb-claims s es f cs d h
  absorb-claims s (response error code ∷ es) f cs d h =
      let (i, a, same, n) = on_response-others s error code in
      absorb-claims (on_response texts error code s) es f cs d (same ∙ h)
  absorb-claims s (claim c ∷ es) f cs d h = elim (Bool-cases (is_eligible opts c)) [
    | inr g ↦ rw g (absorb-claims (count s) es f cs d h)
    | inl g ↦ rw g (
        absorb-claims (keep opts c (count s)) es f (cs ++ c ∷ []) d
          (keep-some opts c (count s) f d ∙ rw h refl)
        ∙ append_assoc cs (c ∷ []) _)
  ]
