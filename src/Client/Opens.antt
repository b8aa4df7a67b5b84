-- ===== src/Client/Opens.antt =====
-- What the open of a stream leaves behind at the client, however it ended.
use psrpc.Client.Rpc.{RequestOpts}
use psrpc.Client.Select.{select_server_until, returns, continues, SelectionOpts, Next}
use psrpc.Info.Channels.{RequestInfo}
use psrpc.Client.Select.Scores.{Floats}
use psrpc.Errors.Values.{GoError}
use psrpc.Base.{
  subst, ◌≡◌, refl, sym, ◌≤◌, true, false, not, ◌&&◌, List, [], ◌∷◌, Option, none, some, Text,
  if◌then◌else◌, list_beq, is_some, length, arith, Bool-cases, inl, inr, text_comparable,
}
use psrpc.Base.Assoc.{lookup, lookup-insert, lookup-delete-insert}
use psrpc.Client.Streams.{
  open_request, open_unless, bidding_events, OpenRequest, close_channels, forget_claims, Opening,
  OpenSurroundings, selected_stream, register_stream, Outcome, after_bidding, conclude_open, Ending,
  published_open, StreamClient, grant_stream, await_ack, open_stream, waits, opens, fails, acked,
  canceled, expired, closing,
}

module _ {D : Type 0} where
  -- What an outcome rests on.
  abbrev Founded : Option Ending → List Text × Outcome D → Type 0
  Founded ending x = (x.1 ≡ opens → ending ≡ some acked) × (length x.0 ≤ 1)

  await_ack-Founded :
      (grants : List Text) (o : Option Ending) → length grants ≤ 1 → Founded o (grants, await_ack o)
  unfolding await_ack
  await_ack-Founded grants none l = (λ h. cc, l)
  await_ack-Founded grants (some acked) l = (λ h. refl, l)
  await_ack-Founded grants (some canceled) l = (λ h. cc, l)
  await_ack-Founded grants (some expired) l = (λ h. cc, l)
  await_ack-Founded grants (some closing) l = (λ h. cc, l)

  grant_stream-Founded :
      (ge : Option (GoError D)) (id : Text) (o : Option Ending) → Founded o (grant_stream ge id o)
  unfolding grant_stream
  grant_stream-Founded (some e) id o = (λ h. cc, omega arith)
  grant_stream-Founded none id o = await_ack-Founded (id ∷ []) o (omega arith)

  after_bidding-Founded :
      {F : Type 0} (ge : Option (GoError D)) (n : Next F D) (o : Option Ending)
      → Founded o (after_bidding ge n o)
  unfolding after_bidding selected_stream
  after_bidding-Founded ge (continues p) o = (λ h. cc, omega arith)
  after_bidding-Founded ge (returns s (some e)) o = (λ h. cc, omega arith)
  after_bidding-Founded ge (returns s none) o = grant_stream-Founded ge s.server_id o

module _ {F D : Type 0} where
  published_open-Founded :
      (fl : Floats F) (i : RequestInfo) (opts : SelectionOpts F D) (s : OpenSurroundings F D)
      (e : Option (GoError D))
      → Founded s.ending (published_open fl i opts s e)
  unfolding published_open
  published_open-Founded fl i opts s (some e) = (λ h. cc, omega arith)
  published_open-Founded fl i opts s none = elim (Bool-cases i.require_claim) [
    | inl y ↦ rw y (
        after_bidding-Founded s.grant_error (select_server_until fl opts (bidding_events s.bidding))
          s.ending)
    | inr y ↦ rw y (await_ack-Founded [] s.ending (omega arith))
  ]

  -- What is left when the open is where it is.
  abbrev pub Leaves : StreamClient F → OpenSurroundings F D → Opening F D → Type 0
  Leaves c s u =
      (is_some u.result ≡ true
        → (j : Text) → lookup u.client.claim_requests j ≡ lookup c.claim_requests j)
      × ((j : Text)
          → lookup u.client.stream_channels j ≡ (
              if not (is_some u.closed_with) && list_beq s.stream_id j
              then some s.channel
              else lookup c.stream_channels j))
      × (u.result ≡ some none → s.ending ≡ some acked)
      × (length u.grants ≤ 1)

  conclude_open-Leaves :
      (c : StreamClient F) (s : OpenSurroundings F D) (req : OpenRequest)
      (x : List Text × Outcome D)
      → lookup c.claim_requests s.request_id ≡ none
      → lookup c.stream_channels s.stream_id ≡ none
      → Founded s.ending x
      → Leaves c s (conclude_open (register_stream c s) s req x)
  unfolding conclude_open register_stream forget_claims close_channels
  conclude_open-Leaves c s req (grants, waits) n m (f, l) =
      (λ h. cc, λ j. lookup-insert c.stream_channels s.stream_id s.channel j, λ h. cc, l)
  conclude_open-Leaves c s req (grants, opens) n m (f, l) = (
    λ h j. lookup-delete-insert c.claim_requests s.request_id [] j n,
    λ j. lookup-insert c.stream_channels s.stream_id s.channel j,
    λ h. f refl,
    l,
  )
  conclude_open-Leaves c s req (grants, fails cause e) n m (f, l) = (
    λ h j. lookup-delete-insert c.claim_requests s.request_id [] j n,
    λ j. lookup-delete-insert c.stream_channels s.stream_id s.channel j m,
    λ h. cc,
    l,
  )

  -- The open of a stream by a client that is not closed grants one server at most, and returns a stream
  -- only if the server acknowledged it. However it returns, the channels for claims are those from
  -- before, if the request's ID was not in use; the new stream's channels stay in the client's map,
  -- if its ID was not in use, exactly as long as the open has not closed the stream for a failure.
  pub open_keeps_maps :
      (fl : Floats F) (c : StreamClient F) (i : RequestInfo) (o : RequestOpts F D)
      (s : OpenSurroundings F D)
      → c.closed ≡ false
      → lookup c.claim_requests s.request_id ≡ none
      → lookup c.stream_channels s.stream_id ≡ none
      → Leaves c s (open_stream fl c i o s)
  unfolding open_stream open_unless
  open_keeps_maps fl c i o s k n m =
      subst (λ b. Leaves c s (open_unless b fl c i o s)) (sym k)
        (conclude_open-Leaves c s (open_request c o s)
          (published_open fl i o.selection_opts s s.publish_error) n m
          (published_open-Founded fl i o.selection_opts s s.publish_error))
