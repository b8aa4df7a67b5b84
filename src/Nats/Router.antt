-- ===== src/Nats/Router.antt =====
-- natsbus.go: the transport's routers. A router subscription is known by a number.
use psrpc.Base.{
  ℕ, Bool, true, false, List, [], ◌∷◌, ◌++◌, Option, none, some, Text, if◌then◌else◌, ltb, length,
  remove_first, text_comparable,
}
use psrpc.Base.Assoc.{lookup, insert, delete}

-- router. `active` says that its NATS subscription was made.
pub record Router : Type 0 where
  pub routes : List (Text × List ℕ)
  pub queue : Bool
  pub active : Bool

-- transport: its routers by NATS channel.
pub record Transport : Type 0 where
  pub routers : List (Text × Router)

unfoldable pub new : Transport
new = record { routers = [] }

-- `n.routes[channel]`, where a missing key reads as an empty slice.
abbrev pub or_nil : Option (List ℕ) → List ℕ
or_nil none = []
or_nil (some ss) = ss

unfoldable pub open_route : Router → Text → ℕ → Router
open_route r channel s = record r {
  routes = insert r.routes channel (or_nil (lookup r.routes channel) ++ s ∷ []);
}

-- After a route was removed: the last one takes the NATS subscription with it.
unfoldable pub close_last : Router → List (Text × List ℕ) → Router × Bool
close_last r [] = (record r { routes = []; active = false }, true)
close_last r (e ∷ m) = (record r { routes = e ∷ m }, false)

-- close, by the subscriptions of the channel and those left; `true` says that the router is closed.
unfoldable pub close_with : Router → Text → ℕ → Option (List ℕ) → Router × Bool
unfolding close_last
close_with r channel n none = (r, false)
close_with r channel n (some left) =
    if ltb 1 n
    then (record r { routes = insert r.routes channel left }, false)
    else close_last r (delete r.routes channel)

unfoldable pub close_route : Router → Text → ℕ → Router × Bool
unfolding close_with remove_first
close_route r channel s =
    let subs = or_nil (lookup r.routes channel) in
    close_with r channel (length subs) (remove_first subs s)

-- The subscriptions that a message with this local channel is written to.
unfoldable pub write : Router → Text → List ℕ
write r channel = or_nil (lookup r.routes channel)

abbrev pub same_kind : Bool → Bool → Bool
same_kind true true = true
same_kind false false = true
same_kind _ _ = false

-- What the first half of subscribeRouter leads to: a subscription on a router that was there, one on
-- a new router, for which NATS is yet to be asked, or an error.
pub data Opened : Type 0 where
  joined begun : Transport → Opened
  mismatch : Opened

unfoldable pub join : Transport → Text → Text → ℕ → Bool → Option Router → Opened
unfolding open_route
join t server local s queue none =
    let r : Router = record { routes = []; queue = queue; active = false } in
    begun (record t { routers = insert t.routers server (open_route r local s) })
join t server local s queue (some r) =
    if same_kind r.queue queue
    then joined (record t { routers = insert t.routers server (open_route r local s) })
    else mismatch

unfoldable pub subscribe_router : Transport → Text → Text → ℕ → Bool → Opened
unfolding join
subscribe_router t server local s queue = join t server local s queue (lookup t.routers server)

-- The second half, on a new router: NATS has answered.
unfoldable pub subscribed : Transport → Text → Router → Bool → Transport
subscribed t server r true = record t {
  routers = insert t.routers server (record r { active = true });
}
subscribed t server r false = record t { routers = delete t.routers server }

unfoldable pub after_close : Transport → Text → Router × Bool → Transport
after_close t server (r, true) = record t { routers = delete t.routers server }
after_close t server (r, false) = record t { routers = insert t.routers server r }

-- unsubscribeRouter, of the router that stands in the map. A subscription whose router was taken
-- out of it has no route in another: there its close changes nothing.
unfoldable pub unsubscribe_in : Transport → Text → Text → ℕ → Option Router → Transport
unfolding after_close close_route
unsubscribe_in t server local s none = t
unsubscribe_in t server local s (some r) = after_close t server (close_route r local s)

unfoldable pub unsubscribe_router : Transport → Text → Text → ℕ → Transport
unfolding unsubscribe_in
unsubscribe_router t server local s = unsubscribe_in t server local s (lookup t.routers server)

-- Whom a message on a NATS channel reaches, by the local channel that it carries.
unfoldable pub routes_of : Option Router → Text → List ℕ
unfolding write
routes_of none local = []
routes_of (some r) local = write r local

unfoldable pub deliver : Transport → Text → Text → List ℕ
unfolding routes_of
deliver t server local = routes_of (lookup t.routers server) local
