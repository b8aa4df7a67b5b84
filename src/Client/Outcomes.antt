-- ===== src/Client/Outcomes.antt =====
-- What holds of every call of newRPC from its start: it ends, frees its channels, grants one server
-- at most, and returns what the server answered.
use psrpc.Base.{
  ℕ, ◌≤◌, ◌≡◌, refl, sym, ◌∙◌, ap, subst, ◌⊎◌, inl, inr, true, false, ◌&&◌, List, [], ◌∷◌, ◌++◌,
  Option, none, some, Text, length, All, is_some, Bool-cases, arith, Result, ok, failed,
  text_comparable, text_eq_iff,
}
use psrpc.Base.Assoc.{lookup, insert, delete, lookup-insert, lookup-delete}
use psrpc.Messages.{Request, Response}
use psrpc.Errors.Values.{GoError}
use psrpc.Info.Channels.{RequestInfo}
use psrpc.Client.Select.{SelectionOpts}
use psrpc.Client.Select.Scores.{Floats}
use psrpc.Client.Wait.{
  Happening, closed, canceled, expired, selection_over, claimed, responded, Waited, waiting,
  answered, gave_up, await, wait_response,
}
use psrpc.Client.Rpc.{
  RequestOpts, RpcClient, Call, Surroundings, register, unregister, call, packed, conclude, new_rpc,
  selects, expiry_of, request_of, internal_error, unanswered_wait,
}
use psrpc.Client.Calls.{IsFinal, Over, AtMostOne, await-Over, await-AtMostOne}
use psrpc.Server.Respond.{read_response}

-- What a call that waits for its response alone takes no notice of.
abbrev pub IsQuiet : {F D : Type 0} → Happening F D → Type 0
IsQuiet (claimed c) = Unit
IsQuiet selection_over = Unit
IsQuiet closed = ⊥
IsQuiet canceled = ⊥
IsQuiet expired = ⊥
IsQuiet (responded r) = ⊥

module _ {Q P F D : Type 0} (fl : Floats F) (marshal : Q → Result (GoError D) Text)
    (unmarshal : Text → Result (GoError D) P) where
  conclude-Over :
      (c : RpcClient F D) (i : RequestInfo) (req : Request) (n : ℕ) (w : List Text × Waited D)
      → Over w
      → is_some (conclude fl marshal unmarshal c i req n w).result ≡ true
  unfolding conclude
  conclude-Over c i req n (ids, waiting) h = elim h [ ]
  conclude-Over c i req n (ids, answered r) h = refl
  conclude-Over c i req n (ids, gave_up e) h = refl

  conclude-grants :
      (c : RpcClient F D) (i : RequestInfo) (req : Request) (n : ℕ) (w : List Text × Waited D)
      → (conclude fl marshal unmarshal c i req n w).grants ≡ w.0
  unfolding conclude
  conclude-grants c i req n (ids, waiting) = refl
  conclude-grants c i req n (ids, answered r) = refl
  conclude-grants c i req n (ids, gave_up e) = refl

  -- The channels of a call that is over are those of its client before it registered.
  abbrev Freed : RpcClient F D → RpcClient F D → Type 0
  Freed c d =
      (j : Text)
      → (lookup d.response_channels j ≡ lookup c.response_channels j)
        × (lookup d.claim_requests j ≡ lookup c.claim_requests j)

  registered-Freed :
      (c : RpcClient F D) (i : RequestInfo) (rid : Text)
      → lookup c.response_channels rid ≡ none
      → lookup c.claim_requests rid ≡ none
      → Freed c (unregister (register c i rid) i rid)
  unfolding register unregister
  registered-Freed c i rid a b j = (
    removed c.response_channels a,
    elim (Bool-cases i.require_claim) [
      | inl e ↦ simp (e) (removed c.claim_requests b)
      | inr e ↦ simp (e) refl
    ],
  )
    where
      removed :
          {V : Type 0} (m : List (Text × List V))
          → lookup m rid ≡ none
          → lookup (delete (insert m rid []) rid) j ≡ lookup m j
      removed m n = ground (
        arith,
        lookup-delete (insert m rid []) rid j,
        lookup-insert m rid [] j,
        text_eq_iff rid j,
      )

  conclude-Freed :
      (c d : RpcClient F D) (i : RequestInfo) (req : Request) (n : ℕ) (w : List Text × Waited D)
      → Freed c (unregister d i req.request_id)
      → is_some (conclude fl marshal unmarshal d i req n w).result ≡ true
      → Freed c (conclude fl marshal unmarshal d i req n w).client
  unfolding conclude
  conclude-Freed c d i req n (ids, waiting) h e = cc
  conclude-Freed c d i req n (ids, answered r) h e = h
  conclude-Freed c d i req n (ids, gave_up x) h e = h

  module _ (c : RpcClient F D) (i : RequestInfo) (o : RequestOpts F D) (s : Surroundings D)
      (es : List (Happening F D)) where
    abbrev Waits : Request → Call P F D
    Waits req =
        conclude fl marshal unmarshal (register c i req.request_id) i req
          (unanswered_wait i o.selection_opts s.now req.expiry)
          (await fl o.selection_opts (internal_error s.grant_error) i es)

    -- A call that fails before it waits.
    abbrev Fails : Call P F D → Type 0
    Fails k =
        (is_some k.result ≡ true)
        × (k.grants ≡ [])
        × ((k.client ≡ c) ⊎ (k.client ≡ unregister (register c i s.request_id) i s.request_id))

    -- A call fails before it waits, or it waits with its request registered.
    new_rpc-cases :
        (q : Q)
        → Fails (new_rpc fl marshal unmarshal c i o s es q)
          ⊎ ((req : Request) × (req.request_id ≡ s.request_id)
              × (new_rpc fl marshal unmarshal c i o s es q ≡ Waits req))
    unfolding new_rpc
    new_rpc-cases q = elim (Bool-cases (i.queue && selects fl o.selection_opts)) [
      | inl b ↦ rw b (inl (refl, refl, inl refl))
      | inr b ↦ rw b (after_marshal (marshal q))
    ]
      where
        published :
            (req : Request) (e : Option (GoError D))
            → req.request_id ≡ s.request_id
            → Fails (call fl marshal unmarshal c i o s es req e)
              ⊎ ((req' : Request) × (req'.request_id ≡ s.request_id)
                  × (call fl marshal unmarshal c i o s es req e ≡ Waits req'))
        published req (some e) h =
            unfold call in inl (refl, refl, inr (ap (λ r. unregister (register c i r) i r) h))
        published req none h = unfold call in inr (req, h, refl)

        after_marshal :
            (m : Result (GoError D) Text)
            → Fails (packed fl marshal unmarshal c i o s es m)
              ⊎ ((req : Request) × (req.request_id ≡ s.request_id)
                  × (packed fl marshal unmarshal c i o s es m ≡ Waits req))
        after_marshal (failed e) = unfold packed in inl (refl, refl, inl refl)
        after_marshal (ok b) =
            unfold packed in
            published (request_of fl marshal unmarshal c i o s b) s.publish_error refl

  -- A call ends with the caller's context, canceled or expired, and with its client's closing,
  -- whatever happened before: it has then returned a response or an error.
  pub call_ends :
      (c : RpcClient F D) (i : RequestInfo) (o : RequestOpts F D) (s : Surroundings D)
      (front : List (Happening F D)) (e : Happening F D) (back : List (Happening F D)) (q : Q)
      → IsFinal e
      → is_some (new_rpc fl marshal unmarshal c i o s (front ++ e ∷ back) q).result ≡ true
  call_ends c i o s front e back q h = elim (new_rpc-cases c i o s (front ++ e ∷ back) q) [
    | inl f ↦ f.0
    | inr (req, r, p) ↦ rw p (
        conclude-Over (register c i req.request_id) i req
          (unanswered_wait i o.selection_opts s.now req.expiry)
          (await fl o.selection_opts (internal_error s.grant_error) i (front ++ e ∷ back))
          (await-Over fl o.selection_opts (internal_error s.grant_error) i front e back h))
  ]

  -- A call grants one server at most.
  pub call_grants_once :
      (c : RpcClient F D) (i : RequestInfo) (o : RequestOpts F D) (s : Surroundings D)
      (es : List (Happening F D)) (q : Q)
      → length (new_rpc fl marshal unmarshal c i o s es q).grants ≤ 1
  call_grants_once c i o s es q = elim (new_rpc-cases c i o s es q) [
    | inl f ↦ rw (f.1) (omega arith)
    | inr (req, r, p) ↦
        let w = await fl o.selection_opts (internal_error s.grant_error) i es in
        rw
          (
            p,
            conclude-grants (register c i req.request_id) i req
                (unanswered_wait i o.selection_opts s.now req.expiry) w,
          )
          (unfold AtMostOne in
            await-AtMostOne fl o.selection_opts (internal_error s.grant_error) i es)
  ]

  -- A call that has returned, however it ended, leaves its client with the channels that it had
  -- before, if the ID of its request was not in use.
  pub call_frees_channels :
      (c : RpcClient F D) (i : RequestInfo) (o : RequestOpts F D) (s : Surroundings D)
      (es : List (Happening F D)) (q : Q) (j : Text)
      → lookup c.response_channels s.request_id ≡ none
      → lookup c.claim_requests s.request_id ≡ none
      → let k = new_rpc fl marshal unmarshal c i o s es q in
        is_some k.result ≡ true
        → (lookup k.client.response_channels j ≡ lookup c.response_channels j)
          × (lookup k.client.claim_requests j ≡ lookup c.claim_requests j)
  call_frees_channels c i o s es q j a b e = elim (new_rpc-cases c i o s es q) [
    | inl (_, _, inl p) ↦ subst (Freed c) (sym p) (λ k. (refl, refl)) j
    | inl (_, _, inr p) ↦ subst (Freed c) (sym p) (registered-Freed c i s.request_id a b) j
    | inr (req, r, p) ↦
        subst (λ k. Freed c k.client) (sym p)
          (conclude-Freed c (register c i req.request_id) i req
            (unanswered_wait i o.selection_opts s.now req.expiry)
            (await fl o.selection_opts (internal_error s.grant_error) i es)
            (subst (λ t. Freed c (unregister (register c i t) i t)) (sym r)
              (registered-Freed c i s.request_id a b))
            (sym (ap (λ k. is_some k.result) p) ∙ e))
          j
  ]

  wait-answer :
      (ge : Option (GoError D)) (front : List (Happening F D)) (r : Response D)
      (back : List (Happening F D))
      → All IsQuiet front
      → wait_response ge (front ++ responded r ∷ back) false ≡ ([], answered r)
  unfolding wait_response
  wait-answer ge [] r back h = refl
  wait-answer ge (claimed c ∷ front) r back h = wait-answer ge front r back h.1
  wait-answer ge (selection_over ∷ front) r back h = wait-answer ge front r back h.1
  wait-answer ge (closed ∷ front) r back h = elim (h.0) [ ]
  wait-answer ge (canceled ∷ front) r back h = elim (h.0) [ ]
  wait-answer ge (expired ∷ front) r back h = elim (h.0) [ ]
  wait-answer ge (responded x ∷ front) r back h = elim (h.0) [ ]

  await-answer :
      (opts : SelectionOpts F D) (ge : Option (GoError D)) (i : RequestInfo)
      (front : List (Happening F D)) (r : Response D) (back : List (Happening F D))
      → i.require_claim ≡ false
      → All IsQuiet front
      → await fl opts ge i (front ++ responded r ∷ back) ≡ ([], answered r)
  unfolding await
  await-answer opts ge i front r back k h = rw k (wait-answer ge front r back h)

  -- Without claims, the first response that comes before the call's end is the one that it returns,
  -- whatever bids come before it.
  pub call_returns_answer :
      (c : RpcClient F D) (i : RequestInfo) (o : RequestOpts F D) (s : Surroundings D)
      (front : List (Happening F D)) (r : Response D) (back : List (Happening F D)) (q : Q)
      (b : Text)
      → i.require_claim ≡ false
      → (i.queue && selects fl o.selection_opts) ≡ false
      → marshal q ≡ ok b
      → s.publish_error ≡ none
      → All IsQuiet front
      → (new_rpc fl marshal unmarshal c i o s (front ++ responded r ∷ back) q).result
        ≡ some (
            read_response unmarshal
              (unanswered_wait i o.selection_opts s.now (expiry_of s.now o.timeout s.deadline))
              r)
  unfolding new_rpc packed call
  call_returns_answer c i o s front r back q b k z m e h =
      rw (z, m)
        (rw (e) (
          rw (await-answer o.selection_opts (internal_error s.grant_error) i front r back k h)
            (unfold conclude in refl)))
