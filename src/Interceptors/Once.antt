-- ===== src/Interceptors/Once.antt =====
-- internal/interceptors/interceptor.go: server interceptors that call their handler once at most, and
-- one that calls it twice.
use mathlib.Core.List.{append_assoc}
use livekit_psrpc.Prelude.{
  ℕ, zero, suc, ◌+◌, ◌-◌, ◌≤◌, ◌≡◌, inl, inr, refl, sym, ap, ◌∙◌, true, false, List, [], ◌∷◌, ◌++◌,
  Option, none, some, length, length-append, get_elem?, ◌==◌, nat_equality, Result, ok, err, arith,
  Result-cases,
}
use livekit_psrpc.Interceptors.Chain.{Handler, ServerInterceptor, next, chain_server}
use livekit_psrpc.Interceptors.Order.{get_elem?-length}

-- An interceptor that answers by itself or calls its handler, and may change request and response.
pub record Wrap (Req Res : Type 0) : Type 0 where
  pub before : Req → Result Res Req
  pub behind : Res → Res

abbrev pub finish : {Res : Type 0} → (Res → Res) → Option (ℕ × Res) → Option (ℕ × Res)
finish f none = none
finish f (some (i, r)) = some (i, f r)

module _ {Req Res : Type 0} where
  abbrev pub passes : (Req → Res) → Handler Req Res
  passes service req i = some (i, service req)

  abbrev pub wrap : Wrap Req Res → ServerInterceptor Req Res
  wrap w handler req i =
      let inner : Req → Option (ℕ × Res) = λ q. finish w.behind (handler q i) in
      elim (w.before req) [ err r ↦ some (i, r) | ok q ↦ inner q ]

  abbrev pub wraps : List (Wrap Req Res) → List (ServerInterceptor Req Res)
  wraps [] = []
  wraps (w ∷ ws) = wrap w ∷ wraps ws

  -- The interceptors around the service, the first of them outermost.
  abbrev pub around : List (Wrap Req Res) → (Req → Res) → Req → Res
  around [] service req = service req
  around (w ∷ ws) service req = elim (w.before req) [
    | err r ↦ r
    | ok q ↦ w.behind (around ws service q)
  ]

  wrap-ok :
      (w : Wrap Req Res) (handler : Handler Req Res) (req q : Req) (i : ℕ)
      → w.before req ≡ ok q
      → wrap w handler req i ≡ finish w.behind (handler q i)
  wrap-ok w handler req q i e = rw (e, wrap) refl

  wrap-err :
      (w : Wrap Req Res) (handler : Handler Req Res) (req : Req) (r : Res) (i : ℕ)
      → w.before req ≡ err r
      → wrap w handler req i ≡ some (i, r)
  wrap-err w handler req r i e = rw (e, wrap) refl

  around-ok :
      (w : Wrap Req Res) (ws : List (Wrap Req Res)) (service : Req → Res) (req q : Req)
      → w.before req ≡ ok q
      → around (w ∷ ws) service req ≡ w.behind (around ws service q)
  around-ok w ws service req q e = rw e refl

  around-err :
      (w : Wrap Req Res) (ws : List (Wrap Req Res)) (service : Req → Res) (req : Req) (r : Res)
      → w.before req ≡ err r
      → around (w ∷ ws) service req ≡ r
  around-err w ws service req r e = rw e refl

  wrap_lem :
      (w : Wrap Req Res) (ws : List (Wrap Req Res)) (service : Req → Res)
      (handler : Handler Req Res) (req : Req) (i : ℕ)
      → ((q : Req) → (j : ℕ) × (handler q i ≡ some (j, around ws service q)))
      → (j : ℕ) × (wrap w handler req i ≡ some (j, around (w ∷ ws) service req))
  wrap_lem w ws service handler req i inner = elim (Result-cases (w.before req)) [
    | inr (r, e) ↦ (
      i,
      wrap-err w handler req r i e ∙ ap (λ x. some (i, x)) (sym (around-err w ws service req r e)),
    )
    | inl (q, e) ↦
        let (j, run) = inner q in
        (
          j,
          wrap-ok w handler req q i e
              ∙ ap (finish w.behind) run
              ∙ ap (λ x. some (j, x)) (sym (around-ok w ws service req q e)),
        )
  ]

  next-last :
      (fuel : ℕ) (fs : List (ServerInterceptor Req Res)) (f : ServerInterceptor Req Res)
      (handler : Handler Req Res) (req : Req) (i : ℕ)
      → (i == length fs - 1) ≡ true
      → get_elem? fs i ≡ some f
      → next (suc fuel) fs handler req i ≡ f handler req i
  unfolding next
  next-last fuel fs f handler req i h e = simp (h, e, next) refl

  next-inner :
      (fuel : ℕ) (fs : List (ServerInterceptor Req Res)) (f : ServerInterceptor Req Res)
      (handler : Handler Req Res) (req : Req) (i : ℕ)
      → (i == length fs - 1) ≡ false
      → get_elem? fs i ≡ some f
      → next (suc fuel) fs handler req i ≡ f (next fuel fs handler) req (i + 1)
  unfolding next
  next-inner fuel fs f handler req i h e = simp (h, e, next) refl

  next_lem :
      (ws : List (Wrap Req Res)) (fuel : ℕ) (w : Wrap Req Res)
      (before : List (ServerInterceptor Req Res)) (service : Req → Res) (req : Req)
      → length (w ∷ ws) ≤ fuel
      → (j : ℕ) × (next fuel (before ++ wrap w ∷ wraps ws) (passes service) req (length before)
          ≡ some (j, around (w ∷ ws) service req))
  next_lem ws zero w before service req h = absurd (omega arith)
  next_lem [] (suc fuel) w before service req h =
      let long = length-append before (wrap w ∷ []) in
      let at_last : (length before == length (before ++ wrap w ∷ []) - 1) ≡ true =
        (nat_equality.decides _ _).1 (omega arith) in
      let (j, run) =
        wrap_lem w [] service (passes service) req (length before) (λ q. (length before, refl)) in
      (
        j,
        next-last fuel _ (wrap w) (passes service) req (length before) at_last
              (get_elem?-length before [] (wrap w))
            ∙ run,
      )
  next_lem (v ∷ ws) (suc fuel) w before service req h =
      let fs : List (ServerInterceptor Req Res) = before ++ wrap w ∷ wraps (v ∷ ws) in
      let long = length-append before (wrap w ∷ wraps (v ∷ ws)) in
      let inside : (length before == length fs - 1) ≡ false = ground arith in
      let longer : length (before ++ wrap w ∷ []) ≡ length before + 1 =
        length-append before (wrap w ∷ []) ∙ omega arith in
      let (j, run) =
        wrap_lem w (v ∷ ws) service (next fuel fs (passes service)) req (length before + 1) (λ q.
          let (k, inner) = next_lem ws fuel v (before ++ wrap w ∷ []) service q (omega arith) in
          (
            k,
            ap (λ n. next fuel fs (passes service) q n) (sym longer)
                ∙ ap (λ gs. next fuel gs (passes service) q (length (before ++ wrap w ∷ [])))
                    (sym (append_assoc before (wrap w ∷ []) (wraps (v ∷ ws))))
                ∙ inner,
          )) in
      (
        j,
        next-inner fuel fs (wrap w) (passes service) req (length before) inside
              (get_elem?-length before (wraps (v ∷ ws)) (wrap w))
            ∙ run,
      )

  wraps-length : (ws : List (Wrap Req Res)) → length (wraps ws) ≡ length ws
  wraps-length [] = refl
  wraps-length (w ∷ ws) = ap suc (wraps-length ws)

  -- Server interceptors that answer by themselves or call their handler once, and a service: the chain
  -- answers as they do when each is put around the next one, the first outermost.
  pub chain_server_lem :
      (ws : List (Wrap Req Res)) (service : Req → Res) (req : Req)
      → (j : ℕ) × (chain_server (wraps ws) (passes service) req 0 ≡ some (j, around ws service req))
  unfolding chain_server
  chain_server_lem [] service req = (0, refl)
  chain_server_lem (w ∷ []) service req =
      wrap_lem w [] service (passes service) req 0 (λ q. (0, refl))
  chain_server_lem (w ∷ v ∷ ws) service req =
      next_lem (v ∷ ws) (length (wraps (w ∷ v ∷ ws))) w [] service req
        (let same = wraps-length ws in omega arith)

  -- An interceptor that calls its handler twice, as one that retries does.
  abbrev pub twice : ServerInterceptor Req Res
  twice handler req i = elim (handler req i) [ none ↦ none | some (j, r) ↦ handler req j ]

  wrap_index :
      (w : Wrap Req Res) (handler : Handler Req Res) (req : Req) (i : ℕ)
      → ((q : Req) → (r : Res) × (handler q i ≡ some (i, r)))
      → (r : Res) × (wrap w handler req i ≡ some (i, r))
  wrap_index w handler req i inner = elim (Result-cases (w.before req)) [
    | inr (r, e) ↦ (r, wrap-err w handler req r i e)
    | inl (q, e) ↦
        let (r, run) = inner q in
        (w.behind r, wrap-ok w handler req q i e ∙ ap (finish w.behind) run)
  ]

  twice_lem :
      (handler : Handler Req Res) (req : Req) (i j : ℕ) (r : Res)
      → handler req i ≡ some (j, r)
      → twice handler req i ≡ handler req j
  twice_lem handler req i j r h = rw (h, twice) refl

  -- If the first of three server interceptors calls its handler twice, the second call passes over the
  -- second interceptor: the answer is that of the third around the service alone.
  pub second_call_skips :
      (b c : Wrap Req Res) (service : Req → Res) (req : Req)
      → (j : ℕ) × (chain_server (twice ∷ wraps (b ∷ c ∷ [])) (passes service) req 0
          ≡ some (j, around (c ∷ []) service req))
  unfolding chain_server
  second_call_skips b c service req =
      let fs : List (ServerInterceptor Req Res) = twice ∷ wraps (b ∷ c ∷ []) in
      let end : (k : ℕ) (q : Req)
          → next (suc k) fs (passes service) q 2 ≡ wrap c (passes service) q 2 =
        λ k q. next-last k fs (wrap c) (passes service) q 2 refl refl in
      let (r, first) = wrap_index b (next 1 fs (passes service)) req 2 (λ q.
        let (s, inner) = wrap_index c (passes service) q 2 (λ p. (service p, refl)) in
        (s, end 0 q ∙ inner)) in
      let (j, run) = wrap_lem c [] service (passes service) req 2 (λ q. (2, refl)) in
      (
        j,
        next-inner 2 fs twice (passes service) req 0 refl refl
            ∙ twice_lem (next 2 fs (passes service)) req 1 2 r
                (next-inner 1 fs (wrap b) (passes service) req 1 refl refl ∙ first)
            ∙ end 1 req
            ∙ run,
      )
