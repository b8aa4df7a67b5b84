-- ===== src/Client/Select/Safety.antt =====
-- What holds of every end of selection, whatever arrives and whatever the options are.
use psrpc.Base.{
  ◌≡◌, refl, subst, ◌⊎◌, inl, inr, true, List, [], ◌∷◌, ◌++◌, Memᴰ, Option, none, some, Text,
  list_beq, Bool-cases, All, arith,
}
use psrpc.Messages.{ClaimRequest}
use psrpc.Errors.Values.{GoError}
use psrpc.Client.Select.{
  Claim, SelectionOpts, Selection, Progress, Event, closed, done, claimed, responded, Next,
  continues, returns, proceed, no_selection, server, finish, fallback, init, eligible, step, run,
  select_server_until,
}
use psrpc.Client.Select.Scores.{Floats}

module _ {F D : Type 0} (fl : Floats F) (opts : SelectionOpts F D) where
  -- Every server that the loop names is one of which `Q` holds, where `Q` holds of the empty name and
  -- of every eligible bidder.
  abbrev Named : (Text → Type 0) → Next F D → Type 0
  Named Q (continues p) = Q p.server_id
  Named Q (returns s err) = Q s.server_id

  abbrev Allows : (Text → Type 0) → Event F D → Type 0
  Allows Q (claimed c) = eligible fl opts c ≡ true → Q c.server_id
  Allows Q closed = Unit
  Allows Q done = Unit
  Allows Q (responded r) = Unit

  module _ (Q : Text → Type 0) (plain : opts.selection_func ≡ none) (nobody : Q []) where
    step-Named :
        (e : Event F D) (p : Progress F D) → Allows Q e → Q p.server_id → Named Q (step fl opts e p)
    unfolding step
    step-Named closed p a h = nobody
    step-Named done p a h = ground arith
    step-Named (claimed c) p a h = ground arith
    step-Named (responded r) p a h = ground arith

    run-Named :
        (es : List (Event F D)) (p : Progress F D)
        → All (Allows Q) es
        → Q p.server_id
        → Named Q (run fl opts es p)
    unfolding run
    run-Named [] p a h = h
    run-Named (e ∷ es) p a h =
        go (step fl opts e p) (step-Named e p a.0 h) (λ q k. run-Named es q a.1 k)
      where
        go :
            (n : Next F D)
            → Named Q n
            → ((q : Progress F D) → Q q.server_id → Named Q (run fl opts es q))
            → Named Q (proceed n (run fl opts es))
        go (continues q) k rec = rec q k
        go (returns s err) k rec = k

  -- A server that was granted: it bid, and its bid was eligible.
  abbrev pub HasBid : List (Event F D) → Text → Type 0
  HasBid es id =
      (c : ClaimRequest F) × Memᴰ (claimed c) es × (eligible fl opts c ≡ true) × (c.server_id ≡ id)

  seen_allowed :
      (es seen : List (Event F D))
      → ((e : Event F D) → Memᴰ e es → Memᴰ e seen)
      → All (Allows (λ id. (id ≡ []) ⊎ HasBid seen id)) es
  seen_allowed [] seen sub = tt
  seen_allowed (closed ∷ es) seen sub = (tt, seen_allowed es seen (λ e m. sub e (Memᴰ.tail m)))
  seen_allowed (done ∷ es) seen sub = (tt, seen_allowed es seen (λ e m. sub e (Memᴰ.tail m)))
  seen_allowed (responded r ∷ es) seen sub = (tt, seen_allowed es seen (λ e m. sub e (Memᴰ.tail m)))
  seen_allowed (claimed c ∷ es) seen sub = (
    λ fits. inr (c, sub (claimed c) (Memᴰ.head refl), fits, refl),
    seen_allowed es seen (λ e m. sub e (Memᴰ.tail m)),
  )

  -- With no selection function, a server that selection names is one whose bid arrived and was
  -- eligible, whatever else arrived and in whatever order.
  pub granted_bid :
      (es : List (Event F D)) (s : Selection D) (err : Option (GoError D))
      → opts.selection_func ≡ none
      → select_server_until fl opts es ≡ returns s err
      → (s.server_id ≡ []) ⊎ HasBid es s.server_id
  unfolding select_server_until
  granted_bid es s err plain ends =
      subst (Named (λ id. (id ≡ []) ⊎ HasBid es id)) ends
        (run-Named _ plain (inl refl) es (init fl) (seen_allowed es es (λ e m. m)) (inl refl))

  abbrev pub Returns : Next F D → Type 0
  Returns n = (s : Selection D) × (err : Option (GoError D)) × (n ≡ returns s err)

  pub finish-Returns :
      (f : Option (List (Claim F) → Text × Option (GoError D))) (p : Progress F D)
      → Returns (finish f p)
  unfolding finish
  finish-Returns (some f) p = (server (f p.claims).0, (f p.claims).1, refl)
  finish-Returns none p = elim (Bool-cases (list_beq p.server_id [])) [
    | inl e ↦ (no_selection, some (fallback p.res_err p.claim_count), rw e)
    | inr e ↦ (server p.server_id, none, rw e)
  ]

  run-Returns :
      (es : List (Event F D)) (p : Progress F D) → Returns (run fl opts (es ++ done ∷ []) p)
  unfolding run
  run-Returns [] p = go (step fl opts done p) (unfold step in finish-Returns opts.selection_func p)
    where
      go : (n : Next F D) → Returns n → Returns (proceed n (run fl opts []))
      go n (s, err, e) = (s, err, rw e)
  run-Returns (e ∷ es) p = go (step fl opts e p) (run-Returns es)
    where
      go :
          (n : Next F D)
          → ((q : Progress F D) → Returns (run fl opts (es ++ done ∷ []) q))
          → Returns (proceed n (run fl opts (es ++ done ∷ [])))
      go (continues q) rec = rec q
      go (returns s err) rec = (s, err, refl)

  -- The context always ends selection: it returns, whatever arrived before.
  pub returns_with_context :
      (es : List (Event F D))
      → (s : Selection D) × (err : Option (GoError D)) × (select_server_until fl opts
            (es ++ done ∷ [])
          ≡ returns s err)
  unfolding select_server_until
  returns_with_context es = run-Returns es (init fl)
