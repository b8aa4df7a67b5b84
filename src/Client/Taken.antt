-- ===== src/Client/Taken.antt =====
-- pkg/client/rpc.go: the response that the waiting of a call ends with came while it waited.
use psrpc.Base.{
  refl, inl, inr, Bool, true, false, not, ◌&&◌, List, [], ◌∷◌, Memᴰ, Option, none, some, Text, All,
  list_beq, Bool-cases, arith,
}
use psrpc.Messages.{Response}
use psrpc.Errors.Values.{GoError}
use psrpc.Info.Channels.{RequestInfo}
use psrpc.Client.Select.{
  Claim, finish, SelectionOpts, Selection, Progress, Next, continues, returns, init, step,
}
use psrpc.Client.Select.Scores.{Floats}
use psrpc.Client.Wait.{
  Happening, closed, canceled, expired, selection_over, claimed, responded, Waited, waiting,
  answered, gave_up, Phase, over, chose, to_event, stays, chosen, ended, go_on, select_phase, grant,
  wait_response, after_selection, await,
}

-- Of a response that a call takes, and of all that come, `Q` holds.
module _ {D : Type 0} (Q : Response D → Type 0) where
  abbrev pub Takes : Waited D → Type 0
  Takes waiting = Unit
  Takes (answered r) = Q r
  Takes (gave_up e) = Unit

  abbrev Holds : Option (Response D) → Type 0
  Holds none = Unit
  Holds (some r) = Q r

  grant-Takes :
      (ge : Option (GoError D)) (id : Text) (w : List Text × Waited D)
      → Takes w.1
      → Takes (grant ge id w).1
  unfolding grant
  grant-Takes (some e) id w h = tt
  grant-Takes none id w h = h

module _ {F D : Type 0} (Q : Response D → Type 0) where
  abbrev pub Allows : Happening F D → Type 0
  Allows (responded r) = Q r
  Allows (claimed c) = Unit
  Allows closed = Unit
  Allows canceled = Unit
  Allows expired = Unit
  Allows selection_over = Unit

  abbrev Selects : Next F D → Type 0
  Selects (continues p) = Unit
  Selects (returns s err) = Holds Q s.res

  abbrev Leads : Phase F D → Type 0
  Leads (over w) = Takes Q w
  Leads (chose id es) = All Allows es

  wait-Takes :
      (ge : Option (GoError D)) (es : List (Happening F D)) (bids : Bool)
      → All Allows es
      → Takes Q (wait_response ge es bids).1
  unfolding wait_response
  wait-Takes ge [] bids a = tt
  wait-Takes ge (responded r ∷ es) bids a = a.0
  wait-Takes ge (claimed c ∷ es) true a =
      grant-Takes Q ge c.server_id (wait_response ge es false) (wait-Takes ge es false a.1)
  wait-Takes ge (claimed c ∷ es) false a = wait-Takes ge es false a.1
  wait-Takes ge (canceled ∷ es) bids a = tt
  wait-Takes ge (expired ∷ es) bids a = tt
  wait-Takes ge (closed ∷ es) bids a = tt
  wait-Takes ge (selection_over ∷ es) bids a = wait-Takes ge es bids a.1

  module _ (fl : Floats F) (opts : SelectionOpts F D) where
    finish-Selects :
        (f : Option (List (Claim F) → Text × Option (GoError D))) (p : Progress F D)
        → Selects (finish f p)
    unfolding finish
    finish-Selects (some f) p = tt
    finish-Selects none p = elim (Bool-cases (list_beq p.server_id [])) [
      | inl y ↦ rw y tt
      | inr y ↦ rw y tt
    ]

    step-Selects :
        (e : Happening F D) (p : Progress F D) → Allows e → Selects (step fl opts (to_event e) p)
    unfolding to_event step
    step-Selects closed p a = tt
    step-Selects canceled p a = finish-Selects opts.selection_func p
    step-Selects expired p a = finish-Selects opts.selection_func p
    step-Selects selection_over p a = finish-Selects opts.selection_func p
    step-Selects (claimed c) p a = ground arith
    step-Selects (responded r) p a = ground (arith, a)

    stays-Allows :
        (e : Happening F D) (es : List (Happening F D))
        → Allows e
        → All Allows es
        → All Allows (stays e es)
    unfolding stays
    stays-Allows closed es a b = (tt, b)
    stays-Allows canceled es a b = (tt, b)
    stays-Allows expired es a b = (tt, b)
    stays-Allows selection_over es a b = b
    stays-Allows (claimed c) es a b = b
    stays-Allows (responded r) es a b = b

    ended-Leads :
        (s : Selection D) (err : Option (GoError D)) (es : List (Happening F D))
        → Holds Q s.res
        → All Allows es
        → Leads (ended s err es)
    unfolding ended chosen
    ended-Leads s (some e) es h b = tt
    ended-Leads s none es h b = from s.res h
      where
        from : (o : Option (Response D)) → Holds Q o → Leads (chosen s.server_id o es)
        from none h = b
        from (some r) h = h

    go_on-Leads :
        (n : Next F D) (es : List (Happening F D)) (k : Progress F D → Phase F D)
        → Selects n
        → All Allows es
        → ((p : Progress F D) → Leads (k p))
        → Leads (go_on n es k)
    unfolding go_on
    go_on-Leads (continues p) es k h b rest = rest p
    go_on-Leads (returns s err) es k h b rest = ended-Leads s err es h b

    select-Leads :
        (es : List (Happening F D)) (p : Progress F D)
        → All Allows es
        → Leads (select_phase fl opts es p)
    unfolding select_phase
    select-Leads [] p a = tt
    select-Leads (e ∷ es) p a =
        go_on-Leads (step fl opts (to_event e) p) (stays e es) (select_phase fl opts es)
          (step-Selects e p a.0) (stays-Allows e es a.0 a.1) (λ q. select-Leads es q a.1)

    after-Takes :
        (ge : Option (GoError D)) (x : Phase F D) → Leads x → Takes Q (after_selection ge x).1
    unfolding after_selection
    after-Takes ge (over w) h = h
    after-Takes ge (chose id es) h =
        grant-Takes Q ge id (wait_response ge es false) (wait-Takes ge es false h)

    pub await-Takes :
        (ge : Option (GoError D)) (i : RequestInfo) (es : List (Happening F D))
        → All Allows es
        → Takes Q (await fl opts ge i es).1
    unfolding await
    await-Takes ge i es a = elim (Bool-cases (i.require_claim && not i.queue)) [
      | inl y ↦
          rw y (after-Takes ge (select_phase fl opts es (init fl)) (select-Leads es (init fl) a))
      | inr y ↦ rw y (wait-Takes ge es (i.require_claim && i.queue) a)
    ]

-- Every event allows that a response is among them.
pub allowed :
    {F D : Type 0} (es seen : List (Happening F D))
    → ((e : Happening F D) → Memᴰ e es → Memᴰ e seen)
    → All (Allows (λ r. Memᴰ (responded r) seen)) es
allowed [] seen sub = tt
allowed (responded r ∷ es) seen sub =
    (sub (responded r) (Memᴰ.head refl), allowed es seen (λ e m. sub e (Memᴰ.tail m)))
allowed (claimed c ∷ es) seen sub = (tt, allowed es seen (λ e m. sub e (Memᴰ.tail m)))
allowed (closed ∷ es) seen sub = (tt, allowed es seen (λ e m. sub e (Memᴰ.tail m)))
allowed (canceled ∷ es) seen sub = (tt, allowed es seen (λ e m. sub e (Memᴰ.tail m)))
allowed (expired ∷ es) seen sub = (tt, allowed es seen (λ e m. sub e (Memᴰ.tail m)))
allowed (selection_over ∷ es) seen sub = (tt, allowed es seen (λ e m. sub e (Memᴰ.tail m)))
