-- ===== src/Client/Select/Given.antt =====
-- What a selection function is given.
use psrpc.Base.{
  ◌≡◌, inl, inr, ◌∙◌, true, List, [], ◌∷◌, ◌++◌, Option, some, Text, if◌then◌else◌, Bool-cases, All,
  arith, is_some, append-nil, append_assoc, sym, ap,
}
use psrpc.Messages.{ClaimRequest}
use psrpc.Errors.Values.{GoError}
use psrpc.Client.Select.{
  Claim, SelectionOpts, Progress, Event, closed, done, claimed, responded, returns, server, init,
  eligible, step, run, select_server_until,
}
use psrpc.Client.Select.Scores.{Floats}
use psrpc.Client.Select.Best.{Waits, onward, onwards, run-onwards}

module _ {F D : Type 0} (fl : Floats F) (opts : SelectionOpts F D) where
  -- The bids that are eligible, in the order of their arrival.
  abbrev pub eligible_claims : List (Event F D) → List (Claim F)
  eligible_claims [] = []
  eligible_claims (closed ∷ es) = eligible_claims es
  eligible_claims (done ∷ es) = eligible_claims es
  eligible_claims (responded r ∷ es) = eligible_claims es
  eligible_claims (claimed c ∷ es) =
      if eligible fl opts c
      then record { server_id = c.server_id; affinity = c.affinity } ∷ eligible_claims es
      else eligible_claims es

  onward-claims :
      (c : ClaimRequest F) (p : Progress F D)
      → is_some opts.selection_func ≡ true
      → (onward fl opts (claimed c) p).claims
        ≡ p.claims
          ++ (if eligible fl opts c
              then record { server_id = c.server_id; affinity = c.affinity } ∷ []
              else [])
  unfolding onward
  onward-claims c p h = ground (arith, append-nil p.claims)

  onwards-claims :
      (es : List (Event F D)) (p : Progress F D)
      → is_some opts.selection_func ≡ true
      → (onwards fl opts es p).claims ≡ p.claims ++ eligible_claims es
  unfolding onwards
  onwards-claims [] p h = sym (append-nil p.claims)
  onwards-claims (closed ∷ es) p h = onwards-claims es p h
  onwards-claims (done ∷ es) p h = onwards-claims es p h
  onwards-claims (responded r ∷ es) p h = onwards-claims es _ h
  onwards-claims (claimed c ∷ es) p h =
      onwards-claims es (onward fl opts (claimed c) p) h
      ∙ rw (onward-claims c p h) (elim (Bool-cases (eligible fl opts c)) [
        | inl fits ↦ rw fits (append_assoc p.claims _ _)
        | inr low ↦ rw low (rw (append-nil p.claims))
      ])

  run-done_func :
      (f : List (Claim F) → Text × Option (GoError D)) (p : Progress F D)
      → opts.selection_func ≡ some f
      → run fl opts (done ∷ []) p ≡ returns (server (f p.claims).0) (f p.claims).1
  unfolding run step
  run-done_func f p given = ground arith

  -- Where nothing ends selection before its context does (the client is not closed, no response without
  -- an error comes, no eligible claim is taken at once) and every bidder has a name, a selection
  -- function is given exactly the eligible bids, in the order in which they arrived, and what it
  -- returns is returned.
  pub func_gets_eligible :
      (es : List (Event F D)) (f : List (Claim F) → Text × Option (GoError D))
      → opts.selection_func ≡ some f
      → All (Waits fl opts) es
      → select_server_until fl opts (es ++ done ∷ [])
        ≡ returns (server (f (eligible_claims es)).0) (f (eligible_claims es)).1
  unfolding select_server_until run step
  func_gets_eligible es f given w =
      run-onwards fl opts es (done ∷ []) (init fl) w
      ∙ run-done_func f (onwards fl opts es (init fl)) given
      ∙ ap (λ cs. returns (server (f cs).0) (f cs).1)
          (onwards-claims es (init fl) (ap is_some given))
