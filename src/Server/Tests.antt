-- ===== src/Server/Tests.antt =====
-- pkg/server/server.go and pkg/server/registration.go: runs of registrations, and instances of their
-- theorems.
use livekit_psrpc.Prelude.{
  ℕ, ◌≡◌, ◌⊎◌, refl, String, true, false, List, [], ◌∷◌, none, some, Result, ok, lookup, Text,
  runes, text_equality,
}
use livekit_psrpc.Errors.Value.{GoError}
use livekit_psrpc.Server.Registry.{
  RpcServer, register_handler, deregister_handler, close_server, close_handlers, register_all,
  register_from, deregister_all, handler_exists, err_server_closed,
}
use livekit_psrpc.Server.Added.{IsAdded}
use livekit_psrpc.Server.Closing.{close_server_lem}
use livekit_psrpc.Server.Rollback.{registerers, keys, IsRestored, register_all_lem}

-- A server with one handler.
abbrev serving : RpcServer ℕ
serving = record { handlers = (runes "a", 1) ∷ []; active = 1; shutdown = false }

-- The third key is taken.
abbrev wanted : List (Text × Result (GoError String) ℕ)
wanted = (runes "b", ok 2) ∷ (runes "c", ok 3) ∷ (runes "a", ok 4) ∷ []

rolled_back : register_all (registerers wanted) serving ≡ (serving, some handler_exists)
unfolding register_all register_from register_handler deregister_handler deregister_all
rolled_back = refl

closed_run : close_server serving ≡ record { handlers = []; active = 0; shutdown = true }
unfolding close_server close_handlers
closed_run = refl

register_all_lem_example :
    ((register_all (registerers wanted) serving).1 ≡ none
      × IsAdded serving (register_all (registerers wanted) serving).0 (keys wanted))
    ⊎ ((e : GoError String) × ((register_all (registerers wanted) serving).1 ≡ some e)
        × IsRestored serving (register_all (registerers wanted) serving).0)
register_all_lem_example = register_all_lem wanted serving

close_server_lem_example :
    ((k : Text) → lookup k (close_server serving).handlers ≡ none)
    × (register_handler {D = String} (runes "b") (ok 2) (close_server serving)
        ≡ (close_server serving, some err_server_closed))
close_server_lem_example = close_server_lem serving (runes "b") (ok 2) refl
