-- ===== src/Client/Collected.antt =====
-- What a request to many servers collects.
use psrpc.Errors.Values.{err_client_closed, GoError}
use psrpc.Base.{
  if◌then◌else◌, ◌≡◌, refl, sym, ap, ◌∙◌, Bool, true, false, List, [], ◌∷◌, ◌++◌, none, some, Text,
  map, Option, is_some, append_assoc, append-nil, text_comparable, Result, ok, all, subst,
}
use psrpc.Base.Assoc.{lookup, insert, lookup-delete-insert}
use psrpc.Client.Multi.{
  multi_request, publish_failed, MultiSurroundings, read_multi, MultiClient, close_multi, MultiCall,
  send_multi, taken, handle_responses, handed, request_multi, MultiEvent, arrives, missed, timeout,
  context_done, client_closed,
}

-- An event that does not end a call.
abbrev pub leaves_open : {D : Type 0} → MultiEvent D → Bool
leaves_open (arrives res) = true
leaves_open (missed res) = true
leaves_open timeout = false
leaves_open context_done = false
leaves_open client_closed = false

module _ {P D : Type 0} (unmarshal : Text → Result (GoError D) P) where
  ended :
      (m : MultiCall P D) (rid : Text) (e : MultiEvent D) (rest : List (MultiEvent D))
      → leaves_open e ≡ false
      → handle_responses unmarshal m rid (e ∷ rest) ≡ close_multi unmarshal m rid
  unfolding handle_responses
  ended m rid (arrives res) rest h = cc
  ended m rid (missed res) rest h = cc
  ended m rid timeout rest h = refl
  ended m rid context_done rest h = refl
  ended m rid client_closed rest h = refl

  handled :
      (m : MultiCall P D) (rid : Text) (es : List (MultiEvent D)) (e : MultiEvent D)
      (rest : List (MultiEvent D))
      → all leaves_open es ≡ true
      → leaves_open e ≡ false
      → handle_responses unmarshal m rid (es ++ e ∷ rest)
        ≡ close_multi unmarshal
            (record m { given = m.given ++ map (read_multi unmarshal) (taken unmarshal es) })
            rid
  unfolding handle_responses taken
  handled m rid [] e rest a h =
      ended m rid e rest h
      ∙ ap (λ g. close_multi unmarshal (record m { given = g }) rid) (sym (append-nil m.given))
  handled m rid (arrives res ∷ es) e rest a h =
      handled (record m { given = m.given ++ read_multi unmarshal res ∷ [] }) rid es e rest a h
      ∙ ap (λ g. close_multi unmarshal (record m { given = g }) rid)
          (append_assoc m.given (read_multi unmarshal res ∷ [])
            (map (read_multi unmarshal) (taken unmarshal es)))
  handled m rid (missed res ∷ es) e rest a h = handled m rid es e rest a h
  handled m rid (timeout ∷ es) e rest a h = cc
  handled m rid (context_done ∷ es) e rest a h = cc
  handled m rid (client_closed ∷ es) e rest a h = cc

  -- A call whose channel is closed, with what was given.
  abbrev Collects :
      MultiClient D
      → List (Option P × Option (GoError D))
      → Option (GoError D)
      → MultiCall P D
      → Type 0
  Collects c given e m =
      (m.given ≡ given)
      × (m.error ≡ e)
      × (m.channel_closed ≡ true)
      × ((j : Text) → lookup m.client.response_channels j ≡ lookup c.response_channels j)

  closed_call :
      (c : MultiClient D) (s : MultiSurroundings D) (b : Text)
      (given : List (Option P × Option (GoError D))) (o : Option (GoError D))
      → lookup c.response_channels s.request_id ≡ none
      → Collects c (if is_some o then [] else given) (publish_failed unmarshal o) (
          handed unmarshal o (
            close_multi unmarshal
              (record {
                client = record c {
                  response_channels = insert c.response_channels s.request_id [];
                };
                error = publish_failed unmarshal o;
                request = some (multi_request unmarshal c s b);
                given = given;
                channel_closed = false;
              })
              s.request_id))
  unfolding handed close_multi
  closed_call c s b given none n =
      (refl, refl, refl, λ j. lookup-delete-insert c.response_channels s.request_id [] j n)
  closed_call c s b given (some e) n =
      (refl, refl, refl, λ j. lookup-delete-insert c.response_channels s.request_id [] j n)

  -- A request to many servers, by a client that is not closed and with a payload that can be encoded,
  -- gives its caller the responses that arrive and are taken before the first event that ends it,
  -- each read once, in their order, and nothing later, or, if it could not be published, nothing but
  -- that error. It then closes the responses' channel and leaves the channels registered that were
  -- before, if the ID of its request was not in use.
  pub multi_collects_responses :
      (c : MultiClient D) (s : MultiSurroundings D) (b : Text) (es : List (MultiEvent D))
      (e : MultiEvent D) (rest : List (MultiEvent D))
      → c.closed ≡ false
      → lookup c.response_channels s.request_id ≡ none
      → all leaves_open es ≡ true
      → leaves_open e ≡ false
      → let m = request_multi unmarshal c s (es ++ e ∷ rest) (ok b) in
        (m.given ≡ (
          if is_some s.publish_error then [] else map (read_multi unmarshal) (taken unmarshal es)))
        × (m.error ≡ publish_failed unmarshal s.publish_error)
        × (m.channel_closed ≡ true)
        × ((j : Text) → lookup m.client.response_channels j ≡ lookup c.response_channels j)
  unfolding request_multi send_multi
  multi_collects_responses c s b es e rest k n a h =
      let m : MultiCall P D = record {
        client = record c { response_channels = insert c.response_channels s.request_id [] };
        error = publish_failed unmarshal s.publish_error;
        request = some (multi_request unmarshal c s b);
        given = [];
        channel_closed = false;
      } in
      let given = map (read_multi unmarshal) (taken unmarshal es) in
      subst
        (Collects c (if is_some s.publish_error then [] else given)
          (publish_failed unmarshal s.publish_error))
        (sym (
          ap (λ y. opened y) k
          ∙ ap (handed unmarshal s.publish_error) (handled m s.request_id es e rest a h)))
        (closed_call c s b given s.publish_error n)
    where
      opened : Bool → MultiCall P D
      opened y =
          if y
          then record {
            client = c;
            error = some err_client_closed;
            request = none;
            given = [];
            channel_closed = false;
          }
          else send_multi unmarshal c s (es ++ e ∷ rest) (ok b)
