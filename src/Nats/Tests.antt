-- ===== src/Nats/Tests.antt =====
-- Runs of the NATS transport: two subscriptions on one channel and one on another local channel,
-- of which one is closed.
use psrpc.Base.Assoc.{delete, lookup, insert}
use psrpc.Base.{ℕ, ◌≡◌, refl, true, false, [], ◌∷◌, Option, none, some, Text, text}
use psrpc.Nats.Router.{Transport, new, subscribe_router, unsubscribe_router, subscribed, deliver}
use psrpc.Nats.Table.{matching, removed}
use psrpc.Nats.Refinement.{Runs, start, subscribes, closes, with_subscription, routers_refine_table}

-- The transport after a subscription, or the one before.
or_before : Transport → Option Transport → Transport
or_before t none = t
or_before t (some u) = u

abbrev node : Text
node = text "node"

abbrev here : Text
here = text "here"

abbrev there : Text
there = text "there"

unfoldable subscribe : Transport → Text → ℕ → Transport
unfolding subscribe_router or_before
subscribe t local s = or_before t (with_subscription (subscribe_router t node local s false))

unfoldable three : Transport
unfolding subscribe new
three = subscribe (subscribe (subscribe new here 1) here 2) there 3

first_two_get_it : deliver three node here ≡ 1 ∷ 2 ∷ []
unfolding three deliver lookup insert
first_two_get_it = refl

kind_is_checked : with_subscription (subscribe_router three node here 4 true) ≡ none
unfolding three subscribe_router lookup insert
kind_is_checked = refl

refused_router_is_gone :
    deliver
      (subscribed three node (record { routes = []; queue = false; active = false }) false)
      node
      here
    ≡ []
unfolding three deliver subscribed lookup delete insert
refused_router_is_gone = refl

three-Runs : Runs three (
    record { server = node; local = here; sub = 1 }
    ∷ record { server = node; local = here; sub = 2 }
    ∷ record { server = node; local = there; sub = 3 }
    ∷ [])
unfolding three subscribe_router or_before lookup insert
three-Runs =
    subscribes node there 3 false
      (subscribes node here 2 false (subscribes node here 1 false start refl) refl) refl

routers_refine_table_example : deliver (unsubscribe_router three node here 1) node here ≡ 2 ∷ []
unfolding three unsubscribe_router removed matching
routers_refine_table_example = routers_refine_table node here (closes node here 1 three-Runs)
