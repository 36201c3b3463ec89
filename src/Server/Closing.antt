-- ===== src/Server/Closing.antt =====
-- pkg/server/server.go: `Close`, and registrations behind it.
use livekit_psrpc.Prelude.{
  ◌≡◌, inl, inr, refl, ap, ◌∙◌, true, false, List, [], ◌∷◌, none, some, Result, ◌==◌, lookup,
  lookup-delete, Text, text_equality, Bool-cases,
}
use livekit_psrpc.Errors.Value.{GoError}
use livekit_psrpc.Server.Registry.{
  RpcServer, err_server_closed, register_handler, complete, close_handlers, close_server,
}

module _ {H : Type 0} where
  closed_lookup :
      (hs : List (Text × H)) (s : RpcServer H) (k : Text)
      → (lookup k hs ≡ none → lookup k s.handlers ≡ none)
      → lookup k (close_handlers hs s).handlers ≡ none
  unfolding close_handlers
  closed_lookup [] s k only = only refl
  closed_lookup ((key, h) ∷ hs) s k only = closed_lookup hs (complete key s) k (λ e.
      elim (Bool-cases (key == k)) [
        | inl same ↦ lookup-delete s.handlers key k ∙ rw same refl
        | inr other ↦ lookup-delete s.handlers key k ∙ rw other (only (rw other e))
      ])

  closed_shutdown :
      (hs : List (Text × H)) (s : RpcServer H) → (close_handlers hs s).shutdown ≡ s.shutdown
  unfolding close_handlers
  closed_shutdown [] s = refl
  closed_shutdown ((key, h) ∷ hs) s = closed_shutdown hs (complete key s)

  closes :
      (s : RpcServer H)
      → s.shutdown ≡ false
      → close_server s ≡ close_handlers s.handlers (record s { shutdown = true })
  unfolding close_server
  closes s h = simp (h, close_server) refl

  refused :
      {D : Type 0} (s : RpcServer H) (key : Text) (created : Result (GoError D) H)
      → s.shutdown ≡ true
      → register_handler key created s ≡ (s, some err_server_closed)
  unfolding register_handler
  refused s key created h = simp (h, register_handler) refl

  -- When a server that was open has been closed, no key has a handler, and no handler can be registered:
  -- a registration returns ErrServerClosed and changes nothing.
  pub close_server_lem :
      {D : Type 0} (s : RpcServer H) (key : Text) (created : Result (GoError D) H)
      → s.shutdown ≡ false
      → ((k : Text) → lookup k (close_server s).handlers ≡ none)
        × (register_handler key created (close_server s) ≡ (close_server s, some err_server_closed))
  close_server_lem s key created h = (
    λ k.
        ap (λ t. lookup k t.handlers) (closes s h)
        ∙ closed_lookup s.handlers (record s { shutdown = true }) k (λ e. e),
    refused (close_server s) key created (
        ap (λ t. t.shutdown) (closes s h)
        ∙ closed_shutdown s.handlers (record s { shutdown = true })),
  )
