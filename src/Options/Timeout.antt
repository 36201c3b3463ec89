-- ===== src/Options/Timeout.antt =====
-- pkg/client/options.go: the timeout of a request.
use livekit_psrpc.Prelude.{
  ℕ, ◌≤◌, ◌≡◌, ◌≢◌, ◌⊎◌, inl, inr, refl, true, false, some, ltb, ◌==◌, nat_equality, arith,
  Bool-cases, ltb→lt, Bool, List, [], ◌∷◌, ◌++◌, Option, Every, ◌∙◌,
}
use livekit_psrpc.Options.Client.{
  ClientOpts, RequestOpts, get_request_opts, apply_all, with_request_timeout, Duration, signed_key,
  longer, within_deadline, request_timeout,
}

not-ltb→le : (a b : ℕ) → ltb a b ≡ false → b ≤ a
not-ltb→le a b h = ground arith

not_longer : (a b : Duration) → longer a b ≡ false → signed_key a ≤ signed_key b
not_longer a b h = not-ltb→le _ _ h

chosen :
    (timeout dt : Duration)
    → dt ≢ 0
    → ((request_timeout timeout (some dt) ≡ dt) × ((timeout ≡ 0) ⊎ (longer timeout dt ≡ true)))
      ⊎ ((request_timeout timeout (some dt) ≡ timeout) × (longer timeout dt ≡ false))
unfolding request_timeout within_deadline
chosen timeout dt some_time = elim (Bool-cases (timeout == 0)) [
  | inl z ↦
      let kept : (dt == 0) ≡ false = ground arith in
      inl (rw z rw kept refl, inl ((nat_equality.decides _ _).0 z))
  | inr p ↦
      let kept : (dt == 0) ≡ false = ground arith in
      elim (Bool-cases (longer timeout dt)) [
        | inl l ↦ inl (rw p rw l rw kept refl, inr l)
        | inr s ↦ inr (rw p rw s rw p refl, s)
      ]
]

within_bounds :
    (timeout dt : Duration)
    → dt ≢ 0
    → (signed_key (request_timeout timeout (some dt)) ≤ signed_key dt)
      × ((timeout ≡ 0) ⊎ (signed_key (request_timeout timeout (some dt)) ≤ signed_key timeout))
within_bounds timeout dt some_time = elim (chosen timeout dt some_time) [
  | inl (e, inl z) ↦ rw e (omega arith, inl z)
  | inl (e, inr l) ↦ rw e (omega arith, inr (let less = ltb→lt _ _ l in omega arith))
  | inr (e, s) ↦ rw e (not_longer timeout dt s, inr (omega arith))
]

module _ {D I : Type 0} where
  -- An option that does not set the timeout.
  abbrev pub KeepsTimeout : (RequestOpts D I → RequestOpts D I) → Type 0
  KeepsTimeout opt = (o : RequestOpts D I) → (opt o).timeout ≡ o.timeout

  apply_all-timeout :
      (opts : List (RequestOpts D I → RequestOpts D I)) (o : RequestOpts D I)
      → Every KeepsTimeout opts
      → (apply_all opts o).timeout ≡ o.timeout
  apply_all-timeout [] o h = refl
  apply_all-timeout (opt ∷ opts) o (k, ks) = apply_all-timeout opts (opt o) ks ∙ k o

  -- A request in a context with a deadline that is not just now, none of whose options sets the timeout,
  -- gets a timeout that is no longer than to the deadline, and no longer than the client's timeout, if
  -- it has one.
  pub request_timeout_bounds :
      (options : ClientOpts I) (affinity_enabled : Bool)
      (opts : List (RequestOpts D I → RequestOpts D I)) (dt : Duration)
      → Every KeepsTimeout opts
      → dt ≢ 0
      → (signed_key (get_request_opts (some dt) affinity_enabled options opts).timeout
          ≤ signed_key dt)
        × ((options.timeout ≡ 0)
            ⊎ (signed_key (get_request_opts (some dt) affinity_enabled options opts).timeout
                ≤ signed_key options.timeout))
  unfolding get_request_opts
  request_timeout_bounds options affinity_enabled opts dt keep some_time =
      let base : RequestOpts D I = get_request_opts (some dt) affinity_enabled options [] in
      let e : (apply_all opts base).timeout ≡ request_timeout options.timeout (some dt) =
        apply_all-timeout opts base keep in
      rw e (within_bounds options.timeout dt some_time)

  -- WithRequestTimeout sets it, behind options that are given before it, whatever the deadline is.
  pub request_timeout_set :
      (deadline : Option Duration) (options : ClientOpts I) (affinity_enabled : Bool)
      (before behind : List (RequestOpts D I → RequestOpts D I)) (timeout : Duration)
      → Every KeepsTimeout behind
      → (get_request_opts deadline affinity_enabled options
          (before ++ with_request_timeout timeout ∷ behind)).timeout
        ≡ timeout
  unfolding get_request_opts with_request_timeout
  request_timeout_set deadline options affinity_enabled before behind timeout keep =
      behind_all before _
    where
      behind_all :
          (before : List (RequestOpts D I → RequestOpts D I)) (o : RequestOpts D I)
          → (apply_all (before ++ with_request_timeout timeout ∷ behind) o).timeout ≡ timeout
      behind_all [] o = apply_all-timeout behind (with_request_timeout timeout o) keep
      behind_all (opt ∷ opts) o = behind_all opts (opt o)
