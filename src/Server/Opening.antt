-- ===== src/Server/Opening.antt =====
-- When a stream is opened by a server, and what its open leaves behind.
use psrpc.Base.{
  subst, ℕ, suc, ◌≡◌, refl, sym, ap, ◌∙◌, Bool, true, false, not, ◌&&◌, ◌||◌, Option, none, some,
  Text, list_beq, if◌then◌else◌, is_some, Bool-cases, inl, inr, text_comparable,
}
use psrpc.Base.Assoc.{lookup, insert, lookup-insert, lookup-delete-insert}
use psrpc.Messages.{ClaimResponse}
use psrpc.Errors.Values.{GoError}
use psrpc.Info.Channels.{RequestInfo}
use psrpc.Client.Select.Scores.{Floats}
use psrpc.Server.Serving.{chosen}
use psrpc.Server.Streams.{
  StreamMessage, Around, StreamHandler, forget_stream, end_stream, close_once, leave_open,
  claim_decided, claim_result, bid_for, claim_with, claim_stream, after_handler, acknowledged,
  open_stream, opened_if, handle_open_request, handle_body, handle_message,
}

module _ {F D : Type 0} (fl : Floats F) (one : F) (i : RequestInfo) (id : Text)
    (affinity_func : Option F) (out : Around D) where
  abbrev pub keen : Option F → Bool
  keen none = true
  keen (some a) = not (fl.lt a fl.zero)

  -- A claim is won here, or none is needed.
  abbrev pub won : Bool
  won =
      not i.require_claim
      || (keen affinity_func && (not (is_some out.bid_error) && chosen id out.decision))

  abbrev pub serves : Bool
  serves = won && not (is_some out.ack_error)

  -- The function hijacks the stream, and nobody has closed it when it returns.
  abbrev pub stays_open : Bool
  stays_open = out.hijacked && not (is_some out.earlier_close)

  -- What an open with ID `sid` and `rid` adds, if it is `b` that the function runs, and
  -- `kept` that it leaves the stream open.
  abbrev pub OpensAs :
      Bool → StreamHandler F D → Text → Text → ℕ → Bool → StreamHandler F D → Type 0
  OpensAs kept h sid rid ss b u =
      (u.calls ≡ (if b then suc h.calls else h.calls))
      × ((j : Text) → lookup h.claims rid ≡ none → lookup u.claims j ≡ lookup h.claims j)
      × ((j : Text)
          → lookup h.streams sid ≡ none
          → lookup u.streams j
            ≡ (if b && kept && list_beq sid j then some ss else lookup h.streams j))

  abbrev pub Opens : StreamHandler F D → Text → Text → ℕ → Bool → StreamHandler F D → Type 0
  Opens h sid rid ss b u = OpensAs stays_open h sid rid ss b u

  -- The same from a state that agrees with the one before the claim.
  abbrev Agrees : StreamHandler F D → Text → StreamHandler F D → Type 0
  Agrees h rid u =
      (u.calls ≡ h.calls)
      × (u.streams ≡ h.streams)
      × ((j : Text) → lookup h.claims rid ≡ none → lookup u.claims j ≡ lookup h.claims j)

  -- The handler's function has returned, by whether the stream is hijacked and was closed earlier.
  after_handler-Opens :
      (earlier : Option (Option (GoError D))) (y : Bool) (h u : StreamHandler F D) (sid rid : Text)
      (ss : ℕ)
      → Agrees h rid u
      → OpensAs (y && not (is_some earlier)) h sid rid ss true (
          let v = record u { streams = insert u.streams sid ss; calls = suc u.calls } in
          if y then leave_open earlier v sid ss else close_once earlier v sid ss out.handler_error)
  unfolding close_once leave_open end_stream forget_stream
  after_handler-Opens none true h u sid rid ss (c, s, k) =
      (ap suc c, k, λ j n. rw s (lookup-insert h.streams sid ss j))
  after_handler-Opens none false h u sid rid ss (c, s, k) =
      (ap suc c, k, λ j n. rw s (lookup-delete-insert h.streams sid ss j n))
  after_handler-Opens (some earlier) true h u sid rid ss (c, s, k) =
      (ap suc c, k, λ j n. rw s (lookup-delete-insert h.streams sid ss j n))
  after_handler-Opens (some earlier) false h u sid rid ss (c, s, k) =
      (ap suc c, k, λ j n. rw s (lookup-delete-insert h.streams sid ss j n))

  -- A stream that is closed by the open, or was before, is not in the map.
  close_once-Opens :
      (earlier : Option (Option (GoError D))) (cause : Option (GoError D)) (h u : StreamHandler F D)
      (sid rid : Text) (ss : ℕ)
      → Agrees h rid u
      → Opens h sid rid ss false
          (close_once earlier (record u { streams = insert u.streams sid ss }) sid ss cause)
  unfolding close_once end_stream forget_stream
  close_once-Opens none cause h u sid rid ss (c, s, k) =
      (c, k, λ j n. rw s (lookup-delete-insert h.streams sid ss j n))
  close_once-Opens (some earlier) cause h u sid rid ss (c, s, k) =
      (c, k, λ j n. rw s (lookup-delete-insert h.streams sid ss j n))

  acknowledged-Opens :
      (o : Option (GoError D)) (h u : StreamHandler F D) (sid rid : Text) (ss : ℕ)
      → Agrees h rid u
      → Opens h sid rid ss
          (not (is_some o))
          (acknowledged fl one i id affinity_func out o
            (record u { streams = insert u.streams sid ss })
            sid
            ss).0
  unfolding acknowledged after_handler
  acknowledged-Opens (some e) h u sid rid ss a =
      close_once-Opens out.earlier_close (some e) h u sid rid ss a
  acknowledged-Opens none h u sid rid ss a =
      after_handler-Opens out.earlier_close out.hijacked h u sid rid ss a

  open_stream-Opens :
      (h u : StreamHandler F D) (is : StreamMessage) (ss : ℕ)
      → Agrees h is.request_id u
      → Opens h is.stream_id is.request_id ss
          (not (is_some out.ack_error))
          (open_stream fl one i id affinity_func out u is ss).0
  unfolding open_stream
  open_stream-Opens h u is ss a =
      acknowledged-Opens out.ack_error h u is.stream_id is.request_id ss a

  -- A claim, with whether it is `b` that it was won.
  abbrev Claims :
      StreamHandler F D → Text → Bool → StreamHandler F D × (Bool × Option (GoError D)) → Type 0
  Claims h rid b x = Agrees h rid x.0 × (x.1.0 ≡ b)

  claim_result_lem :
      (e : Option (GoError D)) (d : Option ClaimResponse)
      → (claim_result id e d).0 ≡ (not (is_some e) && chosen id d)
  unfolding claim_result claim_decided
  claim_result_lem (some e) d = refl
  claim_result_lem none none = refl
  claim_result_lem none (some c) = refl

  bid_for-Claims :
      (h : StreamHandler F D) (is : StreamMessage) (node : Text) (a : F)
      → Claims h is.request_id
          (not (is_some out.bid_error) && chosen id out.decision)
          (bid_for i.service id out h is node a)
  unfolding bid_for
  bid_for-Claims h is node a = (
    (refl, refl, λ j n. lookup-delete-insert h.claims is.request_id none j n),
    claim_result_lem out.bid_error out.decision,
  )

  claim_with-Claims :
      (o : Option F) (h : StreamHandler F D) (is : StreamMessage) (node : Text)
      → Claims h is.request_id
          (keen o && (not (is_some out.bid_error) && chosen id out.decision))
          (claim_with fl one i id affinity_func out o h is node)
  unfolding claim_with
  claim_with-Claims none h is node = bid_for-Claims h is node one
  claim_with-Claims (some a) h is node = elim (Bool-cases (fl.lt a fl.zero)) [
    | inl y ↦ rw y ((refl, refl, λ j n. refl), refl)
    | inr y ↦ rw y (bid_for-Claims h is node a)
  ]

  opened_if-Opens :
      (h : StreamHandler F D) (is : StreamMessage) (ss : ℕ) (b : Bool)
      (x : StreamHandler F D × (Bool × Option (GoError D)))
      → Claims h is.request_id b x
      → Opens h is.stream_id is.request_id ss
          (b && not (is_some out.ack_error))
          (opened_if fl one i id affinity_func out is ss x).0
  unfolding opened_if
  opened_if-Opens h is ss b (u, (true, e)) (a, w) =
      subst
        (λ b.
          Opens h is.stream_id is.request_id ss (b && not (is_some out.ack_error))
            (open_stream fl one i id affinity_func out u is ss).0)
        w (open_stream-Opens h u is ss a)
  opened_if-Opens h is ss b (u, (false, e)) ((c, s, k), w) =
      subst (λ b. Opens h is.stream_id is.request_id ss (b && not (is_some out.ack_error)) u) w
        (c, k, λ j n. ap (λ m. lookup m j) s)

  branch-Opens :
      (h : StreamHandler F D) (is : StreamMessage) (node : Text) (ss : ℕ) (b : Bool)
      → Opens h is.stream_id is.request_id ss
          ((not b
              || (keen affinity_func && (not (is_some out.bid_error) && chosen id out.decision)))
            && not (is_some out.ack_error))
          (if b
            then opened_if fl one i id affinity_func out is ss
                (claim_stream fl one i id affinity_func out h is node)
            else open_stream fl one i id affinity_func out h is ss).0
  unfolding claim_stream
  branch-Opens h is node ss true =
      opened_if-Opens h is ss
        (keen affinity_func && (not (is_some out.bid_error) && chosen id out.decision))
        (claim_with fl one i id affinity_func out affinity_func h is node)
        (claim_with-Claims affinity_func h is node)
  branch-Opens h is node ss false = open_stream-Opens h h is ss (refl, refl, λ j n. refl)

  -- The open of a stream, at a handler that does not drain, runs the handler's function once where
  -- no claim is needed or this server bid and was granted, and the open was acknowledged, and not at
  -- all otherwise. Whatever fails, the claims are those from before, if the request's ID was not
  -- registered, and so are the streams, if the stream's ID was not in use: but for the new one where
  -- the function ran, hijacked it and nobody closed it before the function returned.
  pub stream_opened_once :
      (h : StreamHandler F D) (is : StreamMessage) (node : Text) (ss : ℕ)
      → is.open_node ≡ some node
      → h.draining ≡ false
      → lookup h.claims is.request_id ≡ none
      → lookup h.streams is.stream_id ≡ none
      → let u = (handle_message fl one i id affinity_func out h is ss).0 in
        (u.calls ≡ (if serves then suc h.calls else h.calls))
        × ((j : Text) → lookup u.claims j ≡ lookup h.claims j)
        × ((j : Text)
            → lookup u.streams j ≡ (
                if serves && stays_open && list_beq is.stream_id j
                then some ss
                else lookup h.streams j))
  unfolding handle_message handle_body handle_open_request
  stream_opened_once h is node ss o d n m =
      let e =
        ap (λ o. handle_body fl one i id affinity_func out o h is ss) o
        ∙ ap
            (λ b.
              if b
              then (h, none)
              else handle_open_request fl one i id affinity_func out h is node ss)
            d in
      let (c, k, s) =
        subst (λ x. Opens h is.stream_id is.request_id ss serves x.0) (sym e)
          (branch-Opens h is node ss i.require_claim) in
      (c, λ j. k j n, λ j. s j m)
