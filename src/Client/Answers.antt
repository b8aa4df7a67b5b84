-- ===== src/Client/Answers.antt =====
-- Where the result of a call comes from, whatever happened in it.
use psrpc.Base.{
  ◌≡◌, inl, inr, ◌&&◌, List, [], Memᴰ, Option, none, some, Text, ℕ, some-injective, text_eq_iff,
  Bool-cases, arith, Result, ok, failed,
}
use psrpc.Messages.{Request, Response}
use psrpc.Errors.Values.{GoError}
use psrpc.Info.Channels.{RequestInfo}
use psrpc.Client.Select.Scores.{Floats}
use psrpc.Client.Wait.{Happening, responded, Waited, waiting, answered, gave_up, await}
use psrpc.Client.Rpc.{
  RequestOpts, RpcClient, Surroundings, request_of, call, packed, conclude, new_rpc, selects,
  register, unanswered_wait, internal_error,
}
use psrpc.Server.Respond.{read_response, unpacked}
use psrpc.Client.Taken.{Takes, await-Takes, allowed}

module _ {Q P F D : Type 0} (fl : Floats F) (marshal : Q → Result (GoError D) Text)
    (unmarshal : Text → Result (GoError D) P) where
  -- A response whose payload was read as `p`.
  abbrev Reads : P → Response D → Type 0
  Reads p r = (r.error ≡ []) × (unmarshal r.raw_response ≡ ok p)

  unpacked-ok :
      (x : Result (GoError D) P) (p : P) → unpacked unmarshal x ≡ (some p, none) → x ≡ ok p
  unfolding unpacked
  unpacked-ok (ok a) p h = cc
  unpacked-ok (failed e) p h = cc

  read_response-Reads :
      (wait : ℕ) (r : Response D) (p : P)
      → read_response unmarshal wait r ≡ (some p, none)
      → Reads p r
  unfolding read_response
  read_response-Reads wait r p h =
      ground (arith, h, text_eq_iff r.error [], unpacked-ok (unmarshal r.raw_response) p)

  conclude-Reads :
      (S : Response D → Type 0) (c : RpcClient F D) (i : RequestInfo) (req : Request) (wait : ℕ)
      (w : List Text × Waited D) (p : P)
      → Takes S w.1
      → (conclude fl marshal unmarshal c i req wait w).result ≡ some (some p, none)
      → (r : Response D) × S r × (r.error ≡ []) × (unmarshal r.raw_response ≡ ok p)
  unfolding conclude
  conclude-Reads S c i req wait (ids, waiting) p t h = cc
  conclude-Reads S c i req wait (ids, answered r) p t h =
      let (e, u) = read_response-Reads wait r p (some-injective h) in (r, t, e, u)
  conclude-Reads S c i req wait (ids, gave_up e) p t h = cc

  module _ (c : RpcClient F D) (i : RequestInfo) (o : RequestOpts F D) (s : Surroundings D)
      (es : List (Happening F D)) (p : P) where
    -- A response among the events that was read as the result.
    abbrev Answered : Type 0
    Answered =
        (r : Response D) × Memᴰ (responded r) es
        × (r.error ≡ [])
        × (unmarshal r.raw_response ≡ ok p)

    call-Answered :
        (req : Request) (e : Option (GoError D))
        → (call fl marshal unmarshal c i o s es req e).result ≡ some (some p, none)
        → Answered
    unfolding call
    call-Answered req (some e) h = cc
    call-Answered req none h =
        conclude-Reads (λ r. Memᴰ (responded r) es) (register c i req.request_id) i req
          (unanswered_wait i o.selection_opts s.now req.expiry)
          (await fl o.selection_opts (internal_error s.grant_error) i es) p
          (await-Takes (λ r. Memᴰ (responded r) es) fl o.selection_opts
            (internal_error s.grant_error) i es (allowed es es (λ e m. m)))
          h

    packed-Answered :
        (x : Result (GoError D) Text)
        → (packed fl marshal unmarshal c i o s es x).result ≡ some (some p, none)
        → Answered
    unfolding packed
    packed-Answered (failed e) h = cc
    packed-Answered (ok b) h =
        call-Answered (request_of fl marshal unmarshal c i o s b) s.publish_error h

    -- A call that returns a value without an error has it from a response that came meanwhile, whose
    -- error text is empty and whose payload is read as that value, with claims or without, in
    -- selection or after it.
    pub result_was_answered :
        (q : Q)
        → (new_rpc fl marshal unmarshal c i o s es q).result ≡ some (some p, none)
        → Answered
    unfolding new_rpc
    result_was_answered q h = elim (Bool-cases (i.queue && selects fl o.selection_opts)) [
      | inl b ↦ let k = rw b at h in cc (k)
      | inr b ↦ packed-Answered (marshal q) (rw b at h)
    ]
