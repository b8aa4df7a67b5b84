-- ===== src/Client/Select.antt =====
-- pkg/client/rpc.go: selectServerUntil, the choice among the servers that bid for a request. The
-- loop of selects is a step over events: which channel is ready, and when a timer or the caller
-- ends the context, is the environment's choice.
pub mod Scores
pub mod Best
pub mod Safety
pub mod Given
mod Tests
use psrpc.Base.{
  ℕ, suc, zero, ◌+◌, ◌%◌, ◌/◌, ◌≡◌, Bool, true, false, ◌&&◌, ◌||◌, not, List, [], ◌∷◌, ◌++◌, Option,
  none, some, Text, text, list_beq, if◌then◌else◌, ltb, is_some,
}
use psrpc.Messages.{ClaimRequest, Response}
use psrpc.Errors.Codes.{ErrorCode}
use psrpc.Errors.Values.{
  GoError, coded, new_errorf, new_error_from_response, err_no_response, err_client_closed,
}
use Scores.{Floats}

pub record Claim (F : Type 0) : Type 0 where
  pub server_id : Text
  pub affinity : F

pub record SelectionOpts (F D : Type 0) : Type 0 where
  pub minimum_affinity : F
  pub maximum_affinity : F
  pub accept_first_available : Bool
  pub affinity_timeout : ℕ
  pub short_circuit_timeout : ℕ
  pub selection_func : Option (List (Claim F) → Text × Option (GoError D))

-- How selection ended: a server to grant, or a response that arrived instead of a claim.
pub record Selection (D : Type 0) : Type 0 where
  pub server_id : Text
  pub res : Option (Response D)

-- The variables of the loop. `shorted` also says that the short-circuit timer is armed.
pub record Progress (F D : Type 0) : Type 0 where
  pub shorted : Bool
  pub server_id : Text
  pub affinity : F
  pub claims : List (Claim F)
  pub claim_count : ℕ
  pub res_err : Option (GoError D)

pub data Event (F D : Type 0) : Type 0 where
  closed done : Event F D
  claimed : ClaimRequest F → Event F D
  responded : Response D → Event F D

pub data Next (F D : Type 0) : Type 0 where
  continues : Progress F D → Next F D
  returns : Selection D → Option (GoError D) → Next F D

-- Go round the loop again, or leave it.
abbrev pub proceed : {F D : Type 0} → Next F D → (Progress F D → Next F D) → Next F D
proceed (continues p) k = k p
proceed (returns s err) k = returns s err

-- `%d`, with enough fuel for the number's digits.
decimal_from : ℕ → ℕ → Text → Text
decimal_from zero n acc = acc
decimal_from (suc fuel) n acc =
    let acc' = (n % 10 + b'0') ∷ acc in
    let rest = decimal_from fuel (n / 10) acc' in if ltb n 10 then acc' else rest

decimal : ℕ → Text
unfolding decimal_from
decimal n = decimal_from (suc n) n []

module _ {D : Type 0} where
  abbrev pub no_selection : Selection D
  no_selection = record { server_id = []; res = none }

  abbrev pub server : Text → Selection D
  server id = record { server_id = id; res = none }

  no_servers : ℕ → GoError D
  unfolding decimal new_errorf
  no_servers n =
      new_errorf ErrorCode.unavailable
        (text "no servers available (received " ++ (decimal n ++ text " responses)"))

  unfoldable pub fallback : Option (GoError D) → ℕ → GoError D
  unfolding no_servers
  fallback (some e) n = e
  fallback none n = if ltb 0 n then no_servers n else err_no_response

module _ {F D : Type 0} where
  -- The context ended: what is returned from what was gathered.
  unfoldable pub finish :
      Option (List (Claim F) → Text × Option (GoError D)) → Progress F D → Next F D
  unfolding fallback
  finish (some f) p = returns (server (f p.claims).0) (f p.claims).1
  finish none p =
      if not (list_beq p.server_id [])
      then returns (server p.server_id) none
      else returns no_selection (some (fallback p.res_err p.claim_count))

  unfoldable pub init : Floats F → Progress F D
  init fl = record {
    shorted = false;
    server_id = [];
    affinity = fl.zero;
    claims = [];
    claim_count = 0;
    res_err = none;
  }

module _ {F D : Type 0} (fl : Floats F) (opts : SelectionOpts F D) where
  -- `(opts.MinimumAffinity > 0 && claim.Affinity >= opts.MinimumAffinity) || opts.MinimumAffinity <= 0`
  unfoldable pub eligible : ClaimRequest F → Bool
  eligible c =
      (fl.lt fl.zero opts.minimum_affinity && fl.le opts.minimum_affinity c.affinity)
      || fl.le opts.minimum_affinity fl.zero

  -- `opts.AcceptFirstAvailable || opts.MaximumAffinity > 0 && claim.Affinity >= opts.MaximumAffinity`
  unfoldable pub at_once : ClaimRequest F → Bool
  at_once c =
      opts.accept_first_available
      || (fl.lt fl.zero opts.maximum_affinity && fl.le opts.maximum_affinity c.affinity)

  -- An eligible claim that is not taken at once is kept for the selection function, or compared.
  weigh : ClaimRequest F → Progress F D → Progress F D
  weigh c p =
      if is_some opts.selection_func
      then record p {
        claims = p.claims ++ record { server_id = c.server_id; affinity = c.affinity } ∷ [];
      }
      else if fl.lt p.affinity c.affinity
      then record p { server_id = c.server_id; affinity = c.affinity }
      else p

  short : Progress F D → Progress F D
  short p = if ltb 0 opts.short_circuit_timeout then record p { shorted = true } else p

  on_claim : ClaimRequest F → Progress F D → Next F D
  unfolding weigh short
  on_claim c p =
      let counted = record p { claim_count = p.claim_count + 1 } in
      if eligible c
      then (if at_once c
          then returns (server c.server_id) none
          else continues (short (weigh c counted)))
      else continues counted

  on_response : Response D → Progress F D → Next F D
  on_response r p =
      if list_beq r.error []
      then returns (record { server_id = []; res = some r }) none
      else continues (record p {
        res_err = some (coded (new_error_from_response r.code r.error r.error_details));
      })

  -- One turn of the loop.
  unfoldable pub step : Event F D → Progress F D → Next F D
  unfolding finish on_claim on_response
  step closed p = returns no_selection (some err_client_closed)
  step done p = finish opts.selection_func p
  step (claimed c) p = on_claim c p
  step (responded r) p = on_response r p

  -- The loop over the events that arrive; it still waits where they end.
  unfoldable pub run : List (Event F D) → Progress F D → Next F D
  run [] p = continues p
  run (e ∷ es) p = proceed (step e p) (run es)

  unfoldable pub select_server_until : List (Event F D) → Next F D
  unfolding init
  select_server_until es = run es (init fl)
