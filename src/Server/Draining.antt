-- ===== src/Server/Draining.antt =====
-- pkg/server/rpc.go: run and close, the life of a handler: its loop takes requests, each is handled
-- by a goroutine of its own, and a close that is not forced waits for them.
use psrpc.Base.{ℕ, ◌+◌, ◌-◌, ◌<◌, ◌≡◌, Bool, true, false, not, arith}

-- The handler's channels and its wait group: `queued` requests are in the subscription's channel, and
-- `handling` are being handled. `closing` says that close has begun, `force` how, and `complete` that
-- it is over. The last four count the requests that came, those that were taken, those that had
-- expired when they were taken, and those whose handling ended.
pub record Handler : Type 0 where
  pub subscribed : Bool
  pub queued : ℕ
  pub handling : ℕ
  pub drained : Bool
  pub closing : Bool
  pub force : Bool
  pub complete : Bool
  pub received : ℕ
  pub taken : ℕ
  pub dropped : ℕ
  pub finished : ℕ

unfoldable pub new_handler : Handler
new_handler = record {
  subscribed = true;
  queued = 0;
  handling = 0;
  drained = false;
  closing = false;
  force = false;
  complete = false;
  received = 0;
  taken = 0;
  dropped = 0;
  finished = 0;
}

unfoldable pub arrive : Handler → Handler
arrive h = record h { queued = h.queued + 1; received = h.received + 1 }

-- The loop takes a request; the argument says whether it is still in time.
unfoldable pub take_request : Bool → Handler → Handler
take_request true h = record h {
  queued = h.queued - 1;
  handling = h.handling + 1;
  taken = h.taken + 1;
}
take_request false h = record h { queued = h.queued - 1; dropped = h.dropped + 1 }

unfoldable pub end_handling : Handler → Handler
end_handling h = record h { handling = h.handling - 1; finished = h.finished + 1 }

-- The loop finds the channel of requests closed.
unfoldable pub drain : Handler → Handler
drain h = record h { drained = true }

unfoldable pub begin_closing : Bool → Handler → Handler
begin_closing forced h = record h { subscribed = false; closing = true; force = forced }

unfoldable pub end_closing : Handler → Handler
end_closing h = record h { complete = true }

pub data Step (h : Handler) : Handler → Type 0 where
  arrives : h.subscribed ≡ true → Step h (arrive h)
  takes : (in_time : Bool) → 0 < h.queued → Step h (take_request in_time h)
  ends : 0 < h.handling → Step h (end_handling h)
  drains : h.subscribed ≡ false → h.queued ≡ 0 → h.drained ≡ false → Step h (drain h)
  begins : (forced : Bool) → h.closing ≡ false → Step h (begin_closing forced h)
  forces : h.closing ≡ true → h.force ≡ true → Step h (end_closing h)
  waits :
      h.closing ≡ true
      → h.force ≡ false
      → h.drained ≡ true
      → h.handling ≡ 0
      → Step h (end_closing h)

pub data Reach : Handler → Type 0 where
  start : Reach new_handler
  after : {h k : Handler} → Reach h → Step h k → Reach k

-- The counts fit, nothing comes once the loop has drained, and a close that was not forced is over
-- only when nothing is handled.
record Sound (h : Handler) : Type 0 where
  counted : h.received ≡ h.queued + h.taken + h.dropped
  served : h.taken ≡ h.handling + h.finished
  closed : h.closing ≡ not h.subscribed
  empty : h.drained ≡ true → (h.queued ≡ 0) × (h.subscribed ≡ false)
  waited : h.complete ≡ true → h.force ≡ false → (h.drained ≡ true) × (h.handling ≡ 0)
  begun : h.complete ≡ true → h.closing ≡ true

Step-Sound : {h k : Handler} → Step h k → Sound h → Sound k
unfolding arrive take_request end_handling drain begin_closing end_closing
Step-Sound (arrives e) v = ground arith
Step-Sound (takes true e) v = ground arith
Step-Sound (takes false e) v = ground arith
Step-Sound (ends e) v = ground arith
Step-Sound (drains e f g) v = ground arith
Step-Sound (begins forced e) v = ground arith
Step-Sound (forces e f) v = ground arith
Step-Sound (waits e f g k) v = ground arith

Reach-Sound : {h : Handler} → Reach h → Sound h
unfolding new_handler
Reach-Sound start = ground arith
Reach-Sound (after r s) = Step-Sound s (Reach-Sound r)

-- A close that was not forced loses no request: when it is over, every request that came had either
-- expired when it was taken, or its handling has ended, and none is left.
pub graceful_close_loses_nothing :
    {h : Handler}
    → Reach h
    → h.complete ≡ true
    → h.force ≡ false
    → (h.received ≡ h.finished + h.dropped)
      × (h.queued ≡ 0)
      × (h.handling ≡ 0)
      × (h.subscribed ≡ false)
graceful_close_loses_nothing r c f =
    let v = Reach-Sound r in ground (arith, v.counted, v.served, v.empty, v.waited)
