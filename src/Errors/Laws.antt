-- ===== src/Errors/Laws.antt =====
-- errors.go: how the translations of a code agree with one another.
use livekit_psrpc.Prelude.{
  ℕ, ◌≤◌, ◌<◌, ◌≡◌, ◌≢◌, ◌↔◌, ◌⊎◌, inl, inr, refl, List, [], ◌∷◌, ◌==◌, string_equality, arith,
  Bool-cases, switch, AllValues, switch-AllValues, tail,
}
use livekit_psrpc.Errors.Codes.{ErrorCode}
use livekit_psrpc.Errors.Codes
use livekit_psrpc.Errors.Foreign.{GrpcCode, TwirpCode}
use livekit_psrpc.Errors.Translations.{
  to_http, error_code_from_grpc, to_grpc, to_twirp, http_cases, grpc_cases, twirp_cases,
}

-- A `switch` whose first case is the key `a` alone, and whose other values differ from that case's,
-- takes the first value exactly at `a`.
switch-first_iff {ℓ} :
    {B : Type ℓ} (e a : ErrorCode) (v d : B) (cases : List (List ErrorCode × B))
    → AllValues (λ w. w ≢ v) cases
    → d ≢ v
    → (switch e ((a ∷ [], v) ∷ cases) d ≡ v) ↔ (e ≡ a)
switch-first_iff e a v d cases h hd = elim (Bool-cases (a == e)) [
  | inl hit ↦ rw hit ((λ _. ground (arith, string_equality.decides a e)), λ _. refl)
  | inr miss ↦ rw miss (
    (λ p. absurd (switch-AllValues (λ w. w ≢ v) e cases d h hd p)),
    λ p. ground (arith, string_equality.decides a e),
  )
]

-- A code is a success under one of the three translations exactly when it is `OK`, so the three
-- agree on what a success is, for every text that may stand as a code.
pub success_agrees :
    (e : ErrorCode)
    → ((to_http e ≡ 200) ↔ (e ≡ Codes.ok))
      × ((to_grpc e ≡ GrpcCode.ok) ↔ (e ≡ Codes.ok))
      × ((to_twirp e ≡ TwirpCode.no_error) ↔ (e ≡ Codes.ok))
unfolding to_http to_grpc to_twirp
success_agrees e = (
  switch-first_iff e Codes.ok 200 500 (tail http_cases) (omega arith) (omega arith),
  switch-first_iff e Codes.ok GrpcCode.ok GrpcCode.unknown (tail grpc_cases) (ground arith)
      (ground arith),
  switch-first_iff e Codes.ok TwirpCode.no_error TwirpCode.unknown (tail twirp_cases) (ground arith)
      (ground arith),
)

switch-rest {ℓ} :
    {B : Type ℓ} (P : B → Type 0) (e a : ErrorCode) (v d : B) (cases : List (List ErrorCode × B))
    → AllValues P cases
    → P d
    → e ≢ a
    → P (switch e ((a ∷ [], v) ∷ cases) d)
switch-rest P e a v d cases h hd ne = elim (Bool-cases (a == e)) [
  | inl hit ↦ absurd (ne (ground (arith, string_equality.decides a e)))
  | inr miss ↦ rw miss (switch-AllValues P e cases d h hd)
]

-- The HTTP status of a code that is not `OK` is a client error or a server error.
pub to_http_bounds : (e : ErrorCode) → e ≢ Codes.ok → (400 ≤ to_http e) × (to_http e < 600)
unfolding to_http
to_http_bounds e ne =
    switch-rest (λ s. (400 ≤ s) × (s < 600)) e Codes.ok 200 500 (tail http_cases) (omega arith)
      (omega arith) ne

-- A gRPC code that the package knows comes back from its translation, and every other one becomes
-- `Unknown`.
pub to_grpc-from_grpc :
    (c : GrpcCode)
    → (to_grpc (error_code_from_grpc c) ≡ c)
      ⊎ ((n : ℕ) × (c ≡ GrpcCode.other n) × (to_grpc (error_code_from_grpc c) ≡ GrpcCode.unknown))
unfolding to_grpc error_code_from_grpc
to_grpc-from_grpc (GrpcCode.other n) = inr (n, refl, refl)
to_grpc-from_grpc GrpcCode.ok = inl refl
to_grpc-from_grpc _ = inl refl
