-- ===== src/Server/Handlers.antt =====
-- pkg/server/server.go: the map of handlers and the count of the active ones. A handler is known by a
-- number; RegisterHandler and RegisterStreamHandler are alike in what they do to the server.
use psrpc.Base.{
  ℕ, suc, zero, ◌+◌, Bool, true, false, ◌||◌, List, [], Option, none, some, Text, if◌then◌else◌,
  nat_beq, is_some, map, text_comparable,
}
use psrpc.Base.Assoc.{lookup, insert, delete}

pub record RpcServer : Type 0 where
  pub shutdown : Bool
  pub handlers : List (Text × ℕ)
  pub active : ℕ

unfoldable pub new_rpc_server : RpcServer
new_rpc_server = record { shutdown = false; handlers = []; active = 0 }

-- Why a handler is not registered; its subscriptions may fail too.
pub data Refusal : Type 0 where
  server_closed handler_exists : Refusal

-- RegisterHandler, up to the creation of the handler.
unfoldable pub check_registration : RpcServer → Text → Option Refusal
check_registration s key =
    if s.shutdown
    then some server_closed
    else if is_some (lookup s.handlers key)
    then some handler_exists
    else none

-- RegisterHandler, with the handler.
unfoldable pub add_handler : RpcServer → Text → ℕ → RpcServer
add_handler s key h = record s { active = s.active + 1; handlers = insert s.handlers key h }

-- onCompleted counts the handler off, where a count below 0 panics, and takes its key out of the map.
unfoldable pub count_from : RpcServer → ℕ → Option RpcServer
count_from s zero = none
count_from s (suc n) = some (record s { active = n })

unfoldable pub count_off : RpcServer → Option RpcServer
unfolding count_from
count_off s = count_from s s.active

unfoldable pub remove_handler : RpcServer → Text → RpcServer
remove_handler s key = record s { handlers = delete s.handlers key }

-- DeregisterHandler: the handler that it closes, if any.
unfoldable pub deregister_handler : RpcServer → Text → Option ℕ
deregister_handler s key = lookup s.handlers key

-- Close: its first call closes the handlers of the map; a call that does not force waits until no
-- handler is active.
unfoldable pub close_server : RpcServer → RpcServer × List ℕ
close_server s =
    if s.shutdown then (s, []) else (record s { shutdown = true }, map (λ e. e.1) s.handlers)

unfoldable pub close_returns : RpcServer → Bool → Bool
close_returns s force = force || nat_beq s.active 0
