-- ===== src/Client/Select/Best.antt =====
-- Which server selection grants when it waits for the context to end.
use psrpc.Base.{
  ℕ, suc, ◌+◌, ◌≡◌, ◌≢◌, refl, ◌∙◌, subst, ◌⊎◌, inl, inr, true, false, ◌&&◌, List, [], ◌∷◌, ◌++◌,
  Memᴰ, Memᴰ-cases, not-Memᴰ-nil, Option, none, some, text_eq_iff, if◌then◌else◌, Bool-cases, All,
  All-Memᴰ, arith,
}
use psrpc.Messages.{ClaimRequest}
use psrpc.Errors.Values.{GoError, coded, new_error_from_response}
use psrpc.Client.Select.{
  SelectionOpts, Progress, Event, closed, done, claimed, responded, continues, returns,
  no_selection, server, fallback, init, short, weigh, eligible, at_once, step, run,
  select_server_until,
}
use psrpc.Client.Select.Scores.{Floats, IsStrict}

module _ {F D : Type 0} where
  -- The number of claims that arrived.
  abbrev pub claims_in : List (Event F D) → ℕ
  claims_in [] = 0
  claims_in (claimed c ∷ es) = suc (claims_in es)
  claims_in (closed ∷ es) = claims_in es
  claims_in (done ∷ es) = claims_in es
  claims_in (responded r ∷ es) = claims_in es

  -- The error of the last response.
  abbrev pub last_error : List (Event F D) → Option (GoError D) → Option (GoError D)
  last_error [] e = e
  last_error (responded r ∷ es) e =
      last_error es (some (coded (new_error_from_response r.code r.error r.error_details)))
  last_error (claimed c ∷ es) e = last_error es e
  last_error (closed ∷ es) e = last_error es e
  last_error (done ∷ es) e = last_error es e

module _ {F D : Type 0} (fl : Floats F) (opts : SelectionOpts F D) where
  -- Events at which selection goes on waiting: claims that are not taken at once, from servers with
  -- a name, and error responses.
  abbrev pub Waits : Event F D → Type 0
  Waits closed = ⊥
  Waits done = ⊥
  Waits (claimed c) = ((eligible fl opts c && at_once fl opts c) ≡ false) × (c.server_id ≢ [])
  Waits (responded r) = r.error ≢ []

  -- No eligible claim among the events scores above `a`.
  abbrev pub NotAbove : F → Event F D → Type 0
  NotAbove a closed = Unit
  NotAbove a done = Unit
  NotAbove a (claimed d) = (eligible fl opts d && fl.lt a d.affinity) ≡ false
  NotAbove a (responded r) = Unit

  -- What the loop makes of an event at which it goes on.
  unfoldable pub onward : Event F D → Progress F D → Progress F D
  unfolding short weigh
  onward closed p = p
  onward done p = p
  onward (claimed c) p =
      let counted = record p { claim_count = p.claim_count + 1 } in
      if eligible fl opts c then short fl opts (weigh fl opts c counted) else counted
  onward (responded r) p = record p {
    res_err = some (coded (new_error_from_response r.code r.error r.error_details));
  }

  unfoldable pub onwards : List (Event F D) → Progress F D → Progress F D
  unfolding onward
  onwards [] p = p
  onwards (e ∷ es) p = onwards es (onward e p)

  step-onward :
      (e : Event F D) (p : Progress F D) → Waits e → step fl opts e p ≡ continues (onward e p)
  unfolding step onward
  step-onward closed p w = absurd w
  step-onward done p w = absurd w
  step-onward (claimed c) p w = ground arith
  step-onward (responded r) p w = ground (arith, text_eq_iff r.error [])

  pub run-onwards :
      (es rest : List (Event F D)) (p : Progress F D)
      → All Waits es
      → run fl opts (es ++ rest) p ≡ run fl opts rest (onwards es p)
  unfolding run onwards
  run-onwards [] rest p w = refl
  run-onwards (e ∷ es) rest p w = rw (step-onward e p w.0) (run-onwards es rest (onward e p) w.1)

  -- What the server's name and score are once the loop has gone on: as they were, or a claim's.
  abbrev From : List (Event F D) → Progress F D → Progress F D → Type 0
  From es p q =
      ((q.server_id ≡ p.server_id) × (q.affinity ≡ p.affinity))
      ⊎ ((c : ClaimRequest F) × Memᴰ (claimed c) es
          × (eligible fl opts c ≡ true)
          × (q.server_id ≡ c.server_id)
          × (q.affinity ≡ c.affinity)
          × (fl.lt p.affinity c.affinity ≡ true))

  module _ (plain : opts.selection_func ≡ none) where
    onward-From :
        (e : Event F D) (es : List (Event F D)) (p : Progress F D) → From (e ∷ es) p (onward e p)
    unfolding onward short weigh
    onward-From closed es p = inl (refl, refl)
    onward-From done es p = inl (refl, refl)
    onward-From (claimed c) es p = elim (Bool-cases (eligible fl opts c)) [
      | inr low ↦ inl (ground arith, ground arith)
      | inl fits ↦ elim (Bool-cases (fl.lt p.affinity c.affinity)) [
        | inr behind ↦ inl (ground arith, ground arith)
        | inl ahead ↦ inr (c, Memᴰ.head refl, fits, ground arith, ground arith, ahead)
      ]
    ]
    onward-From (responded r) es p = inl (refl, refl)

    From-tail :
        (strict : IsStrict fl) (e : Event F D) (es : List (Event F D)) (p p1 q : Progress F D)
        → From (e ∷ []) p p1
        → From es p1 q
        → From (e ∷ es) p q
    From-tail strict e es p p1 q (inl (i, a)) (inl (j, b)) = inl (j ∙ i, b ∙ a)
    From-tail strict e es p p1 q (inl (i, a)) (inr (c, m, f, j, b, l)) =
        inr (c, Memᴰ.tail m, f, j, b, rw a at l)
    From-tail strict e es p p1 q (inr (c, m, f, j, b, l)) (inl (i, a)) =
        inr (c, first m, f, i ∙ j, a ∙ b, l)
      where
        first : Memᴰ (claimed c) (e ∷ []) → Memᴰ (claimed c) (e ∷ es)
        first k = elim (Memᴰ-cases k) [ inl h ↦ Memᴰ.head h | inr h ↦ absurd (not-Memᴰ-nil h) ]
    From-tail strict e es p p1 q (inr (c, m, f, j, b, l)) (inr (d, n, g, k, x, y)) =
        inr
          (d, Memᴰ.tail n, g, k, x, strict.lt_trans p.affinity c.affinity d.affinity l (rw b at y))

    onwards-From :
        IsStrict fl → (es : List (Event F D)) (p : Progress F D) → From es p (onwards es p)
    unfolding onwards
    onwards-From strict [] p = inl (refl, refl)
    onwards-From strict (e ∷ es) p =
        From-tail strict e es p (onward e p) (onwards es (onward e p)) (onward-From e [] p)
          (onwards-From strict es (onward e p))

    -- A score that was not passed by the loop's is not passed later.
    NotAbove-From :
        (strict : IsStrict fl) (e : Event F D) (es : List (Event F D)) (p q : Progress F D)
        → From es p q
        → NotAbove p.affinity e
        → NotAbove q.affinity e
    NotAbove-From strict closed es p q f n = tt
    NotAbove-From strict done es p q f n = tt
    NotAbove-From strict (claimed d) es p q (inl (i, a)) n = rw a n
    NotAbove-From strict (claimed d) es p q (inr (c, m, f, i, a, l)) n =
        rw a (ground (arith, strict.lt_trans p.affinity c.affinity d.affinity l))
    NotAbove-From strict (responded r) es p q f n = tt

    onward-NotAbove :
        (strict : IsStrict fl) (e : Event F D) (p : Progress F D) → NotAbove (onward e p).affinity e
    unfolding onward short weigh
    onward-NotAbove strict closed p = tt
    onward-NotAbove strict done p = tt
    onward-NotAbove strict (claimed c) p = ground (arith, strict.lt_irrefl c.affinity)
    onward-NotAbove strict (responded r) p = tt

    onwards-NotAbove :
        (strict : IsStrict fl) (es : List (Event F D)) (p : Progress F D)
        → All (NotAbove (onwards es p).affinity) es
    unfolding onwards
    onwards-NotAbove strict [] p = tt
    onwards-NotAbove strict (e ∷ es) p = (
      NotAbove-From strict e es (onward e p) (onwards es (onward e p))
          (onwards-From strict es (onward e p)) (onward-NotAbove strict e p),
      onwards-NotAbove strict es (onward e p),
    )

  onward-counts :
      (e : Event F D) (p : Progress F D)
      → ((onward e p).claim_count ≡ claims_in (e ∷ []) + p.claim_count)
        × ((onward e p).res_err ≡ last_error (e ∷ []) p.res_err)
  unfolding onward short weigh
  onward-counts closed p = (omega arith, refl)
  onward-counts done p = (omega arith, refl)
  onward-counts (claimed c) p = (ground arith, ground arith)
  onward-counts (responded r) p = (omega arith, refl)

  split-counts :
      (e : Event F D) (es : List (Event F D)) (x : Option (GoError D))
      → (claims_in (e ∷ es) ≡ claims_in (e ∷ []) + claims_in es)
        × (last_error (e ∷ es) x ≡ last_error es (last_error (e ∷ []) x))
  split-counts closed es x = (omega arith, refl)
  split-counts _ es x = (omega arith, refl)

  onwards-counts :
      (es : List (Event F D)) (p : Progress F D)
      → ((onwards es p).claim_count ≡ claims_in es + p.claim_count)
        × ((onwards es p).res_err ≡ last_error es p.res_err)
  unfolding onwards
  onwards-counts [] p = (omega arith, refl)
  onwards-counts (e ∷ es) p =
      let (n, h) = onward-counts e p in
      let (m, k) = onwards-counts es (onward e p) in
      let (a, b) = split-counts e es p.res_err in (omega arith, cc)

  module _ (plain : opts.selection_func ≡ none) where
    run-done_unnamed :
        (q : Progress F D)
        → q.server_id ≡ []
        → run fl opts (done ∷ []) q ≡ returns no_selection (some (fallback q.res_err q.claim_count))
    unfolding run step
    run-done_unnamed q h = ground (arith, text_eq_iff q.server_id [])

    run-done_named :
        (q : Progress F D)
        → q.server_id ≢ []
        → run fl opts (done ∷ []) q ≡ returns (server q.server_id) none
    unfolding run step
    run-done_named q h = ground (arith, text_eq_iff q.server_id [])

  -- With no selection function, and where nothing ends selection before its context does (the client is
  -- not closed, no response without an error comes, no eligible claim is taken at once) and every
  -- bidder has a name, selection ends with the context. For a strict order of scores, it grants a server that bid, is eligible, scores above zero and is outscored by no
  -- eligible bid; or, where no eligible bid scores above zero, it returns the last error response, or
  -- else an error that says whether any bid arrived.
  pub grants_best :
      (es : List (Event F D))
      → IsStrict fl
      → opts.selection_func ≡ none
      → All Waits es
      → ((c : ClaimRequest F) × Memᴰ (claimed c) es
          × (eligible fl opts c ≡ true)
          × (fl.lt fl.zero c.affinity ≡ true)
          × All (NotAbove c.affinity) es
          × (select_server_until fl opts (es ++ done ∷ []) ≡ returns (server c.server_id) none))
        ⊎ (All (NotAbove fl.zero) es
            × (select_server_until fl opts (es ++ done ∷ [])
                ≡ returns no_selection (some (fallback (last_error es none) (claims_in es)))))
  unfolding select_server_until
  grants_best es strict plain w =
      let reached = run-onwards es (done ∷ []) (init fl) w in
      let counts = onwards-counts es (init fl) in
      let counted : (onwards es (init fl)).claim_count ≡ claims_in es = omega (arith, counts.0) in
      elim (onwards-From plain strict es (init fl)) [
        | inl (i, a) ↦ inr (
          subst (λ x. All (NotAbove x) es) a (onwards-NotAbove plain strict es (init fl)),
          reached ∙ run-done_unnamed plain _ i ∙ cc (counts.1, counted),
        )
        | inr (c, m, f, i, a, l) ↦ inl (
          c,
          m,
          f,
          l,
          subst (λ x. All (NotAbove x) es) a (onwards-NotAbove plain strict es (init fl)),
          reached ∙ run-done_named plain _ (rw i ((All-Memᴰ Waits es w m).1)) ∙ cc,
        )
      ]
