-- ===== src/Server/Registry.antt =====
-- pkg/server/server.go: the registry of handlers, and pkg/server/registration.go: the registration of
-- several. A call is one step, so this is what one goroutine that registers sees; a handler is closed
-- and completed within the call that closes it.
use livekit_psrpc.Prelude.{
  ℕ, ◌+◌, ◌-◌, Bool, true, List, [], ◌∷◌, ◌++◌, Option, none, some, Result, ok, err, if◌then◌else◌,
  lookup, insert, delete, Text, text_equality,
}
use livekit_psrpc.Errors.Codes
use livekit_psrpc.Errors.Value.{GoError, plain, new_errorf}

pub record RpcServer (H : Type 0) : Type 0 where
  pub handlers : List (Text × H)
  pub active : ℕ
  pub shutdown : Bool

module _ {D : Type 0} where
  unfoldable pub err_server_closed : GoError D
  unfolding new_errorf
  err_server_closed = new_errorf Codes.canceled "server is closed"

  abbrev pub handler_exists : GoError D
  handler_exists = plain "handler already exists"

module _ {H D : Type 0} where
  -- `RegisterHandler` and `RegisterStreamHandler` under a handler key, with what the creation of the
  -- handler answers.
  unfoldable pub register_handler :
      Text → Result (GoError D) H → RpcServer H → RpcServer H × Option (GoError D)
  unfolding err_server_closed
  register_handler key created s =
      if s.shutdown then (s, some err_server_closed) else elim (lookup key s.handlers) [
        | some h ↦ (s, some handler_exists)
        | none ↦ elim created [
          | err e ↦ (s, some e)
          | ok h ↦ (record s { handlers = insert key h s.handlers; active = s.active + 1 }, none)
        ]
      ]

module _ {H : Type 0} where
  -- `close` of a handler, through its `onCompleted`.
  abbrev pub complete : Text → RpcServer H → RpcServer H
  complete key s = record s { handlers = delete key s.handlers; active = s.active - 1 }

  unfoldable pub deregister_handler : Text → RpcServer H → RpcServer H
  deregister_handler key s = elim (lookup key s.handlers) [ none ↦ s | some h ↦ complete key s ]

  -- The handlers that `Close` finds, closed one after the other.
  unfoldable pub close_handlers : List (Text × H) → RpcServer H → RpcServer H
  close_handlers [] s = s
  close_handlers ((key, h) ∷ hs) s = close_handlers hs (complete key s)

  -- A second call does nothing.
  unfoldable pub close_server : RpcServer H → RpcServer H
  unfolding close_handlers
  close_server s =
      if s.shutdown then s else close_handlers s.handlers (record s { shutdown = true })

-- A function that registers and one that deregisters, on a state.
pub record Registerer (S E : Type 0) : Type 0 where
  pub register : S → S × Option E
  pub deregister : S → S

module _ {S E : Type 0} where
  unfoldable pub deregister_all : List (Registerer S E) → S → S
  deregister_all [] s = s
  deregister_all (r ∷ rs) s = deregister_all rs (r.deregister s)

  -- The loop of `RegistererSlice.Register`, with those that it has registered.
  unfoldable pub register_from : List (Registerer S E) → List (Registerer S E) → S → S × Option E
  unfolding deregister_all
  register_from before [] s = (s, none)
  register_from before (r ∷ rs) s =
      let (s', failed) = r.register s in
      let rest = register_from (before ++ r ∷ []) rs s' in
      elim failed [ some e ↦ (deregister_all before s', some e) | none ↦ rest ]

  unfoldable pub register_all : List (Registerer S E) → S → S × Option E
  unfolding register_from
  register_all rs s = register_from [] rs s
