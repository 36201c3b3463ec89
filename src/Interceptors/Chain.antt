-- ===== src/Interceptors/Chain.antt =====
-- internal/interceptors/interceptor.go: `ChainClientInterceptors` and `ChainServerInterceptors`. The
-- chain of a server has an index that all calls of `next` share, so a handler here is a function that
-- also passes the index on. The contexts are part of the requests.
use livekit_psrpc.Prelude.{
  ℕ, zero, suc, ◌+◌, ◌-◌, List, [], ◌∷◌, Option, none, some, length, get_elem?, ◌==◌, nat_equality,
  if◌then◌else◌,
}

-- The loop from the last interceptor down to the first: `i` is the number of those that are left.
unfoldable pub chain_down : {I H : Type 0} → ℕ → List (I → H → H) → I → H → H
chain_down zero interceptors info handler = handler
chain_down (suc i) interceptors info handler = elim (get_elem? interceptors i) [
  | none ↦ handler
  | some f ↦ chain_down i interceptors info (f info handler)
]

unfoldable pub chain_client : {I H : Type 0} → List (I → H → H) → I → H → H
unfolding chain_down
chain_client interceptors info handler = chain_down (length interceptors) interceptors info handler

-- A call with the shared index: the index behind it and the result. `none` is a call of `next` that the
-- fuel does not reach.
abbrev pub Handler : Type 0 → Type 0 → Type 0
Handler Req Res = Req → ℕ → Option (ℕ × Res)

abbrev pub ServerInterceptor : Type 0 → Type 0 → Type 0
ServerInterceptor Req Res = Handler Req Res → Handler Req Res

module _ {Req Res : Type 0} where
  -- `state.next`. Each call of it within another one is made with a greater index, so the number of the
  -- interceptors is fuel enough.
  unfoldable pub next : ℕ → List (ServerInterceptor Req Res) → Handler Req Res → Handler Req Res
  next zero interceptors handler req i = none
  next (suc fuel) interceptors handler req i =
      let later = next fuel interceptors handler in
      if i == length interceptors - 1
      then elim (get_elem? interceptors i) [ none ↦ none | some f ↦ f handler req i ]
      else elim (get_elem? interceptors i) [ none ↦ none | some f ↦ f later req (i + 1) ]

  -- The chain, which is nil for no interceptors: then the service is called itself.
  unfoldable pub chain_server : List (ServerInterceptor Req Res) → Handler Req Res → Handler Req Res
  unfolding next
  chain_server [] handler req i = handler req i
  chain_server (f ∷ []) handler req i = f handler req i
  chain_server (f ∷ g ∷ fs) handler req i = next (length (f ∷ g ∷ fs)) (f ∷ g ∷ fs) handler req 0
