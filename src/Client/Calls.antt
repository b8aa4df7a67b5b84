-- ===== src/Client/Calls.antt =====
-- What holds of every call: it ends, it leaves nothing behind, and it grants one server at most.
use psrpc.Base.{
  ◌≤◌, ◌≡◌, refl, ap, inl, inr, Bool, true, false, not, ◌&&◌, List, [], ◌∷◌, ◌++◌, Option, none,
  some, Text, length, Bool-cases, arith, text_comparable,
}
use psrpc.Messages.{Response}
use psrpc.Errors.Values.{GoError}
use psrpc.Info.Channels.{RequestInfo}
use psrpc.Client.Select.{
  SelectionOpts, Selection, Progress, Next, continues, returns, init, step, finish,
}
use psrpc.Client.Select.Scores.{Floats}
use psrpc.Client.Select.Safety.{finish-Returns}
use psrpc.Client.Wait.{
  Happening, closed, canceled, expired, selection_over, claimed, responded, Waited, waiting,
  answered, gave_up, Phase, to_event, stays, chosen, ended, go_on, select_phase, grant,
  wait_response, after_selection, await,
}

-- The happenings that end a call whatever it waits for.
abbrev pub IsFinal : {F D : Type 0} → Happening F D → Type 0
IsFinal closed = Unit
IsFinal canceled = Unit
IsFinal expired = Unit
IsFinal selection_over = ⊥
IsFinal (claimed c) = ⊥
IsFinal (responded r) = ⊥

module _ {D : Type 0} where
  abbrev pub Over : List Text × Waited D → Type 0
  Over (ids, waiting) = ⊥
  Over (ids, answered r) = Unit
  Over (ids, gave_up e) = Unit

  grant-Over :
      (ge : Option (GoError D)) (id : Text) (w : List Text × Waited D)
      → Over w
      → Over (grant ge id w)
  unfolding grant
  grant-Over (some e) id w h = tt
  grant-Over none id (ids, waiting) h = elim h [ ]
  grant-Over none id (ids, answered r) h = tt
  grant-Over none id (ids, gave_up e) h = tt

  grant-once :
      (ge : Option (GoError D)) (id : Text) (w : List Text × Waited D)
      → w.0 ≡ []
      → (grant ge id w).0 ≡ id ∷ []
  unfolding grant
  grant-once (some e) id w h = refl
  grant-once none id (ids, w) h = ap (◌∷◌ id) h

module _ {F D : Type 0} where
  wait-Over :
      (ge : Option (GoError D)) (front : List (Happening F D)) (e : Happening F D)
      (back : List (Happening F D)) (bids : Bool)
      → IsFinal e
      → Over (wait_response ge (front ++ e ∷ back) bids)
  unfolding wait_response
  wait-Over ge [] selection_over back bids h = elim h [ ]
  wait-Over ge [] (claimed c) back bids h = elim h [ ]
  wait-Over ge [] (responded r) back bids h = elim h [ ]
  wait-Over ge [] closed back bids h = tt
  wait-Over ge [] canceled back bids h = tt
  wait-Over ge [] expired back bids h = tt
  wait-Over ge (closed ∷ front) e back bids h = tt
  wait-Over ge (canceled ∷ front) e back bids h = tt
  wait-Over ge (expired ∷ front) e back bids h = tt
  wait-Over ge (responded r ∷ front) e back bids h = tt
  wait-Over ge (selection_over ∷ front) e back bids h = wait-Over ge front e back bids h
  wait-Over ge (claimed c ∷ front) e back false h = wait-Over ge front e back false h
  wait-Over ge (claimed c ∷ front) e back true h =
      grant-Over ge c.server_id (wait_response ge (front ++ e ∷ back) false)
        (wait-Over ge front e back false h)

  pub wait-no_grant :
      (ge : Option (GoError D)) (es : List (Happening F D)) → (wait_response ge es false).0 ≡ []
  unfolding wait_response
  wait-no_grant ge [] = refl
  wait-no_grant ge (closed ∷ es) = refl
  wait-no_grant ge (canceled ∷ es) = refl
  wait-no_grant ge (expired ∷ es) = refl
  wait-no_grant ge (responded r ∷ es) = refl
  wait-no_grant ge (selection_over ∷ es) = wait-no_grant ge es
  wait-no_grant ge (claimed c ∷ es) = wait-no_grant ge es

  module _ (fl : Floats F) (opts : SelectionOpts F D) (ge : Option (GoError D)) where
    chosen-Over :
        (id : Text) (r : Option (Response D)) (es : List (Happening F D))
        → Over (wait_response ge es false)
        → Over (after_selection ge (chosen id r es))
    unfolding chosen after_selection
    chosen-Over id (some r) es w = tt
    chosen-Over id none es w = grant-Over ge id (wait_response ge es false) w

    ended-Over :
        (s : Selection D) (err : Option (GoError D)) (es : List (Happening F D))
        → Over (wait_response ge es false)
        → Over (after_selection ge (ended s err es))
    unfolding after_selection ended
    ended-Over s (some e) es w = tt
    ended-Over s none es w = chosen-Over s.server_id s.res es w

    go_on-Over :
        (n : Next F D) (es : List (Happening F D)) (k : Progress F D → Phase F D)
        → ((p : Progress F D) → Over (after_selection ge (k p)))
        → Over (wait_response ge es false)
        → Over (after_selection ge (go_on n es k))
    unfolding go_on
    go_on-Over (continues p) es k h w = h p
    go_on-Over (returns s err) es k h w = ended-Over s err es w

    -- The happenings that remain still end the call.
    stays-Over :
        (x : Happening F D) (es : List (Happening F D))
        → Over (wait_response ge es false)
        → Over (wait_response ge (stays x es) false)
    unfolding stays wait_response
    stays-Over closed es h = tt
    stays-Over canceled es h = tt
    stays-Over expired es h = tt
    stays-Over selection_over es h = h
    stays-Over (claimed c) es h = h
    stays-Over (responded r) es h = h

    finish-Over :
        (p : Progress F D) (es : List (Happening F D)) (k : Progress F D → Phase F D)
        → Over (wait_response ge es false)
        → Over (after_selection ge (go_on (finish opts.selection_func p) es k))
    unfolding go_on
    finish-Over p es k w =
        let (s, err, e) = finish-Returns fl opts opts.selection_func p in
        rw e (ended-Over s err es w)

    -- A final happening ends selection, and what follows it.
    final-Over :
        (e : Happening F D) (es : List (Happening F D)) (p : Progress F D)
        → IsFinal e
        → Over (after_selection ge (select_phase fl opts (e ∷ es) p))
    unfolding select_phase to_event step stays go_on after_selection ended wait_response
    final-Over closed es p h = tt
    final-Over canceled es p h = finish-Over p (canceled ∷ es) (select_phase fl opts es) tt
    final-Over expired es p h = finish-Over p (expired ∷ es) (select_phase fl opts es) tt
    final-Over selection_over es p h = elim h [ ]
    final-Over (claimed c) es p h = elim h [ ]
    final-Over (responded r) es p h = elim h [ ]

    select-Over :
        (front : List (Happening F D)) (e : Happening F D) (back : List (Happening F D))
        (p : Progress F D)
        → IsFinal e
        → Over (after_selection ge (select_phase fl opts (front ++ e ∷ back) p))
    unfolding select_phase
    select-Over [] e back p h = final-Over e back p h
    select-Over (x ∷ front) e back p h =
        go_on-Over (step fl opts (to_event x) p) (stays x (front ++ e ∷ back))
          (select_phase fl opts (front ++ e ∷ back)) (λ q. select-Over front e back q h)
          (stays-Over x (front ++ e ∷ back) (wait-Over ge front e back false h))

    -- Whatever a call does, it is over once its context ended or its client was closed.
    pub await-Over :
        (i : RequestInfo) (front : List (Happening F D)) (e : Happening F D)
        (back : List (Happening F D))
        → IsFinal e
        → Over (await fl opts ge i (front ++ e ∷ back))
    unfolding await
    await-Over i front e back h = elim (Bool-cases (i.require_claim && not i.queue)) [
      | inl b ↦ rw b (select-Over front e back (init fl) h)
      | inr b ↦ rw b (wait-Over ge front e back (i.require_claim && i.queue) h)
    ]

    -- At most one server is granted.
    unfoldable pub AtMostOne : List Text × Waited D → Type 0
    AtMostOne w = length (w.0) ≤ 1

    chosen-AtMostOne :
        (id : Text) (r : Option (Response D)) (es : List (Happening F D))
        → AtMostOne (after_selection ge (chosen id r es))
    unfolding chosen after_selection AtMostOne
    chosen-AtMostOne id (some r) es = omega arith
    chosen-AtMostOne id none es =
        rw (grant-once ge id (wait_response ge es false) (wait-no_grant ge es)) (omega arith)

    select-AtMostOne :
        (es : List (Happening F D)) (p : Progress F D)
        → AtMostOne (after_selection ge (select_phase fl opts es p))
    unfolding select_phase
    select-AtMostOne [] p = unfold AtMostOne after_selection in omega arith
    select-AtMostOne (x ∷ es) p =
        go (step fl opts (to_event x) p) (stays x es) (select-AtMostOne es)
      where
        go :
            (n : Next F D) (fs : List (Happening F D))
            → ((q : Progress F D) → AtMostOne (after_selection ge (select_phase fl opts es q)))
            → AtMostOne (after_selection ge (go_on n fs (select_phase fl opts es)))
        go (continues q) fs h = unfold go_on in h q
        go (returns s (some e)) fs h = unfold go_on ended after_selection AtMostOne in omega arith
        go (returns s none) fs h = unfold go_on ended in chosen-AtMostOne s.server_id s.res fs

    wait-AtMostOne : (es : List (Happening F D)) (b : Bool) → AtMostOne (wait_response ge es b)
    unfolding wait_response AtMostOne
    wait-AtMostOne [] b = omega arith
    wait-AtMostOne (closed ∷ es) b = omega arith
    wait-AtMostOne (canceled ∷ es) b = omega arith
    wait-AtMostOne (expired ∷ es) b = omega arith
    wait-AtMostOne (responded r ∷ es) b = omega arith
    wait-AtMostOne (selection_over ∷ es) b = wait-AtMostOne es b
    wait-AtMostOne (claimed c ∷ es) false = wait-AtMostOne es false
    wait-AtMostOne (claimed c ∷ es) true =
        rw (grant-once ge c.server_id (wait_response ge es false) (wait-no_grant ge es))
          (omega arith)

    pub await-AtMostOne :
        (i : RequestInfo) (es : List (Happening F D)) → AtMostOne (await fl opts ge i es)
    unfolding await
    await-AtMostOne i es = elim (Bool-cases (i.require_claim && not i.queue)) [
      | inl b ↦ rw b (select-AtMostOne es (init fl))
      | inr b ↦ rw b (wait-AtMostOne es (i.require_claim && i.queue))
    ]
