-- ===== src/Interceptors/Tests.antt =====
-- internal/interceptors/interceptor.go: runs of the chains, and instances of their theorems. Requests
-- and responses are the numbers of what they have passed.
use livekit_psrpc.Prelude.{ℕ, ◌+◌, ◌*◌, ◌≡◌, refl, List, [], ◌∷◌, some, ok}
use livekit_psrpc.Interceptors.Chain.{chain_client, chain_down, chain_server, next}
use livekit_psrpc.Interceptors.Once.{
  Wrap, wraps, passes, twice, chain_server_lem, second_call_skips,
}

abbrev digits : List (ℕ → (ℕ → ℕ) → ℕ → ℕ)
digits = (λ info next n. next (n * 10 + 1)) ∷ (λ info next n. next (n * 10 + 2)) ∷ []

abbrev same : ℕ → ℕ
same n = n

client_run : chain_client digits 0 same 0 ≡ 12
unfolding chain_client chain_down
client_run = refl

abbrev digit : ℕ → Wrap ℕ ℕ
digit d = record { before = λ n. ok (n * 10 + d); behind = λ n. n }

server_run :
    chain_server (wraps (digit 1 ∷ digit 2 ∷ digit 3 ∷ [])) (passes same) 0 0 ≡ some (2, 123)
unfolding chain_server next
server_run = refl

chain_server_lem_example :
    (j : ℕ) × (chain_server (wraps (digit 1 ∷ digit 2 ∷ digit 3 ∷ [])) (passes same) 0 0
      ≡ some (j, 123))
chain_server_lem_example = chain_server_lem (digit 1 ∷ digit 2 ∷ digit 3 ∷ []) same 0

second_call_skips_example :
    (j : ℕ) × (chain_server (twice ∷ wraps (digit 2 ∷ digit 3 ∷ [])) (passes same) 0 0
      ≡ some (j, 3))
second_call_skips_example = second_call_skips (digit 2) (digit 3) same 0
