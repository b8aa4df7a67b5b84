-- ===== src/Client/Select/Tests.antt =====
-- Runs of selection, over whole-number affinities.
use psrpc.Base.{
  ℕ, ◌≡◌, refl, true, false, List, [], ◌∷◌, ◌++◌, Option, none, some, Text, text, arith, ◌⊎◌, All,
  Memᴰ,
}
use psrpc.Messages.{ClaimRequest}
use psrpc.Errors.Values.{GoError, err_no_response}
use psrpc.Client.Select.{
  Claim, SelectionOpts, Event, done, claimed, returns, server, no_selection, eligible, at_once,
  select_server_until, fallback, run, step,
}
use psrpc.Client.Select.Scores.{whole, whole-IsStrict}
use psrpc.Client.Select.Best.{Waits, NotAbove, claims_in, last_error, grants_best}
use psrpc.Client.Select.Safety.{HasBid, granted_bid}
use psrpc.Client.Select.Given.{func_gets_eligible}

abbrev bid : Text → ℕ → Event ℕ Text
bid id a = claimed (record { request_id = text "r"; server_id = id; affinity = a })

-- Bids below 2 are not eligible; nothing is taken at once.
abbrev picky : SelectionOpts ℕ Text
picky = record {
  minimum_affinity = 2;
  maximum_affinity = 0;
  accept_first_available = false;
  affinity_timeout = 0;
  short_circuit_timeout = 0;
  selection_func = none;
}

abbrev eager : SelectionOpts ℕ Text
eager = record picky { accept_first_available = true }

abbrev last_of : List (Claim ℕ) → Text × Option (GoError Text)
last_of [] = ([], some err_no_response)
last_of (c ∷ []) = (c.server_id, none)
last_of (c ∷ d ∷ cs) = last_of (d ∷ cs)

abbrev own : SelectionOpts ℕ Text
own = record picky { selection_func = some last_of }

abbrev bids : List (Event ℕ Text)
bids = bid (text "a") 1 ∷ bid (text "b") 3 ∷ bid (text "c") 5 ∷ bid (text "d") 5 ∷ []

bids-wait : All (Waits whole picky) bids
unfolding eligible at_once
bids-wait = ground arith

bids-wait_own : All (Waits whole own) bids
unfolding eligible at_once
bids-wait_own = ground arith

select_run : select_server_until whole picky (bids ++ done ∷ []) ≡ returns (server (text "c")) none
unfolding select_server_until run step eligible at_once
select_run = refl

grants_best_example :
    ((c : ClaimRequest ℕ) × Memᴰ (claimed c) bids
      × (eligible whole picky c ≡ true)
      × (whole.lt whole.zero c.affinity ≡ true)
      × All (NotAbove whole picky c.affinity) bids
      × (select_server_until whole picky (bids ++ done ∷ []) ≡ returns (server c.server_id) none))
    ⊎ (All (NotAbove whole picky whole.zero) bids
        × (select_server_until whole picky (bids ++ done ∷ [])
            ≡ returns no_selection (some (fallback (last_error bids none) (claims_in bids)))))
grants_best_example = grants_best whole picky bids whole-IsStrict refl bids-wait

granted_bid_example : (text "c" ≡ []) ⊎ HasBid whole picky (bids ++ done ∷ []) (text "c")
granted_bid_example =
    granted_bid whole picky (bids ++ done ∷ []) (server (text "c")) none refl select_run

func_gets_eligible_example :
    select_server_until whole own (bids ++ done ∷ []) ≡ returns (server (text "d")) none
unfolding eligible
func_gets_eligible_example = func_gets_eligible whole own bids last_of refl bids-wait_own

-- A server that scores 0 is granted at once by a caller that takes the first available, if no other
-- affinity is asked for.
zero_score_is_granted :
    select_server_until whole (record eager { minimum_affinity = 0 }) (bid (text "a") 0 ∷ bids)
    ≡ returns (server (text "a")) none
unfolding select_server_until run step eligible at_once
zero_score_is_granted = refl
