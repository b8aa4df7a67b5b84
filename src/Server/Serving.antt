-- ===== src/Server/Serving.antt =====
-- When a request is served, and what it leaves behind.
use psrpc.Base.{
  ◌+◌, ◌≡◌, refl, sym, subst, ◌∙◌, ap, Bool, true, false, not, ◌&&◌, ◌||◌, List, [], ◌∷◌, ◌++◌,
  Option, none, some, Text, list_beq, if◌then◌else◌, Result, ok, failed, text_comparable, is_some,
  append-nil, arith, Bool-cases, Option-cases, inl, inr,
}
use psrpc.Base.Assoc.{lookup, insert, delete, lookup-delete-insert}
use psrpc.Messages.{Request, Response, ClaimRequest, ClaimResponse}
use psrpc.Errors.Values.{GoError}
use psrpc.Info.Channels.{Channel, claim_request_channel, response_channel}
use psrpc.Client.Select.Scores.{Floats}
use psrpc.Server.Respond.{answer_channel, send_response}
use psrpc.Server.Handle.{
  Publication, bid, answer, RpcHandler, Outside, Trace, decide, bidden, unregister, offer, ask,
  claim_request, decoded, serve, claimed, reply, observe, publish, handle_request,
}

-- The answers among what was published.
abbrev pub answers : {F D : Type 0} → List (Publication F D) → List (Channel × Response D)
answers [] = []
answers (bid c m ∷ ps) = answers ps
answers (answer c r ∷ ps) = (c, r) ∷ answers ps

answers-append :
    {F D : Type 0} (ps qs : List (Publication F D)) → answers (ps ++ qs) ≡ answers ps ++ answers qs
answers-append [] qs = refl
answers-append (bid c m ∷ ps) qs = answers-append ps qs
answers-append (answer c r ∷ ps) qs = ap (◌∷◌ (c, r)) (answers-append ps qs)

-- The client chose this server.
abbrev pub chosen : Text → Option ClaimResponse → Bool
chosen id none = false
chosen id (some c) = list_beq c.server_id id

granted : {D : Type 0} → Result (GoError D) Bool → Bool
granted (ok b) = b
granted (failed e) = false

-- A claim leaves the answers, the calls and, once it is over, the registered claims alone.
abbrev Keeps : {F D : Type 0} → Text → Trace F D → Trace F D → Type 0
Keeps rid t u =
    (u.calls ≡ t.calls)
    × (answers u.published ≡ answers t.published)
    × ((j : Text) → lookup t.claims rid ≡ none → lookup u.claims j ≡ lookup t.claims j)

module _ {F D : Type 0} where
  decide_lem :
      (id : Text) (t : Trace F D) (d : Option ClaimResponse)
      → ((decide id t d).1 ≡ chosen id d)
        × ((decide id t d).0.calls ≡ t.calls)
        × ((decide id t d).0.published ≡ t.published)
        × ((decide id t d).0.claims ≡ t.claims)
  unfolding decide
  decide_lem id t none = (refl, refl, refl, refl)
  decide_lem id t (some c) = ground arith

  bidden_lem :
      (id : Text) (t : Trace F D) (e : Option (GoError D)) (d : Option ClaimResponse)
      → (granted (bidden id t e d).1 ≡ (not (is_some e) && chosen id d))
        × ((bidden id t e d).0.calls ≡ t.calls)
        × ((bidden id t e d).0.published ≡ t.published)
        × ((bidden id t e d).0.claims ≡ t.claims)
  unfolding bidden granted
  bidden_lem id t (some e) d = (refl, refl, refl, refl)
  bidden_lem id t none d = decide_lem id t d

  offer_lem :
      (service id : Text) (out : Outside D) (t : Trace F D) (ir : Request) (a : F)
      → Keeps ir.request_id t (offer service id out t ir a).0
        × (granted (offer service id out t ir a).1
            ≡ (not (is_some out.bid_error) && chosen id out.decision))
  unfolding offer publish unregister
  offer_lem service id out t ir a =
      let message : ClaimRequest F = record {
        request_id = ir.request_id;
        server_id = id;
        affinity = a;
      } in
      let p : Publication F D = bid (answer_channel service ir claim_request_channel) message in
      let t' : Trace F D = publish (record t { claims = insert t.claims ir.request_id none }) p in
      let (g, c, s, k) = bidden_lem id t' out.bid_error out.decision in
      (
        (
          c,
          ap answers s ∙ answers-append t.published (p ∷ []) ∙ append-nil (answers t.published),
          λ j h.
              ap (λ m. lookup (delete m ir.request_id) j) k
              ∙ lookup-delete-insert t.claims ir.request_id none j h,
        ),
        g,
      )

module _ {P R F D : Type 0} (fl : Floats F) (one : F) (h : RpcHandler P R F D)
    (out : Outside D) where
  abbrev pub willing : P → Bool
  willing req = elim h.affinity_func [ some f ↦ not (fl.lt (f req) fl.zero) | none ↦ true ]

  -- Whether a request is to be served here: no claim is needed, or the queue has chosen for a client
  -- that knows so, or this server bid and was granted.
  abbrev pub awarded : Request → P → Bool
  awarded ir req =
      (h.i.queue && ir.no_claim)
      || (willing req && (not (is_some out.bid_error) && chosen h.id out.decision))

  abbrev pub to_serve : Request → P → Bool
  to_serve ir req = not h.i.require_claim || awarded ir req

  abbrev Claims : Trace F D → Request → Bool → Trace F D × Result (GoError D) Bool → Type 0
  Claims t ir b (u, r) = Keeps ir.request_id t u × (granted r ≡ b)

  ask-Claims :
      (t : Trace F D) (ir : Request) (req : P)
      → Claims t ir
          (willing req && (not (is_some out.bid_error) && chosen h.id out.decision))
          (ask fl one h out h.affinity_func t ir req)
  unfolding ask granted
  ask-Claims t ir req = elim (Option-cases h.affinity_func) [
    | inl e ↦ rw e (offer_lem h.i.service h.id out t ir one)
    | inr (f, e) ↦ rw e (elim (Bool-cases (fl.lt (f req) fl.zero)) [
      | inl n ↦ rw n ((refl, refl, λ j k. refl), refl)
      | inr n ↦ rw n (offer_lem h.i.service h.id out t ir (f req))
    ])
  ]

  claim_request-Claims :
      (t : Trace F D) (ir : Request) (req : P)
      → Claims t ir (awarded ir req) (claim_request fl one h out t ir req)
  unfolding claim_request observe granted
  claim_request-Claims t ir req = elim (Bool-cases (h.i.queue && ir.no_claim)) [
    | inl e ↦ rw e ((refl, refl, λ j k. refl), refl)
    | inr e ↦ rw e (ask-Claims t ir req)
  ]

  module _ (marshal : R → Result (GoError D) Text) (unmarshal : Text → Result (GoError D) P) where
    -- What the handler's own result is answered with, and where.
    abbrev pub own_answer : Request → P → Channel × Response D
    own_answer ir req = (
      answer_channel h.i.service ir response_channel,
      send_response marshal h.id out.now ir (h.handler req).0 (h.handler req).1,
    )

    -- What serving adds to a trace, if it is `b` that the request is served.
    abbrev Adds : Trace F D → Request → P → Bool → Trace F D → Type 0
    Adds t ir req b u =
        (u.calls ≡ (if b then t.calls + 1 else t.calls))
        × (answers u.published ≡ answers t.published ++ (if b then own_answer ir req ∷ [] else []))
        × ((j : Text)
            → lookup t.claims ir.request_id ≡ none
            → lookup u.claims j ≡ lookup t.claims j)

    serve-Adds :
        (t u : Trace F D) (ir : Request) (req : P)
        → Keeps ir.request_id t u
        → Adds t ir req true (serve fl one h out marshal unmarshal u ir req).0
    unfolding serve reply publish
    serve-Adds t u ir req (c, s, k) =
        let a = own_answer ir req in
        (
          ap (λ n. n + 1) c,
          answers-append u.published (answer a.0 a.1 ∷ []) ∙ ap (λ rs. rs ++ a ∷ []) s,
          k,
        )

    claimed-Adds :
        (t : Trace F D) (ir : Request) (req : P) (b : Bool)
        (x : Trace F D × Result (GoError D) Bool)
        → Claims t ir b x
        → Adds t ir req b (claimed fl one h out marshal unmarshal ir req x).0
    unfolding claimed granted
    claimed-Adds t ir req b (u, failed e) (k, g) =
        subst (λ b. Adds t ir req b u) g (k.0, k.1 ∙ sym (append-nil (answers t.published)), k.2)
    claimed-Adds t ir req b (u, ok false) (k, g) =
        subst (λ b. Adds t ir req b u) g (k.0, k.1 ∙ sym (append-nil (answers t.published)), k.2)
    claimed-Adds t ir req b (u, ok true) (k, g) =
        subst (λ b. Adds t ir req b (serve fl one h out marshal unmarshal u ir req).0) g
          (serve-Adds t u ir req k)

    branch-Adds :
        (t : Trace F D) (ir : Request) (req : P) (b : Bool)
        → Adds t ir req
            (not b || awarded ir req)
            (if b
              then claimed fl one h out marshal unmarshal ir req
                  (claim_request fl one h out t ir req)
              else serve fl one h out marshal unmarshal t ir req).0
    branch-Adds t ir req true =
        claimed-Adds t ir req (awarded ir req) (claim_request fl one h out t ir req)
          (claim_request-Claims t ir req)
    branch-Adds t ir req false = serve-Adds t t ir req (refl, refl, λ j n. refl)

    -- A request that can be read runs the handler once if it is to be served here, and not at all
    -- otherwise. Exactly where the handler ran, one answer is published, the handler's own, on the
    -- channel that the client listens to. The claim channels registered are those from before, if the
    -- request's ID was not registered.
    pub request_served_once :
        (t : Trace F D) (ir : Request) (req : P)
        → unmarshal ir.raw_request ≡ ok req
        → lookup t.claims ir.request_id ≡ none
        → let u = (handle_request fl one h out marshal unmarshal t ir).0 in
          (u.calls ≡ (if to_serve ir req then t.calls + 1 else t.calls))
          × (answers u.published
              ≡ answers t.published ++ (if to_serve ir req then own_answer ir req ∷ [] else []))
          × ((j : Text) → lookup u.claims j ≡ lookup t.claims j)
    unfolding handle_request decoded
    request_served_once t ir req d fresh =
        let (c, s, k) = branch-Adds t ir req h.i.require_claim in rw d (c, s, λ j. k j fresh)
