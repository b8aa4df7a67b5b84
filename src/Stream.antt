-- ===== src/Stream.antt =====
-- internal/stream/stream.go: the state that the goroutines of one stream share, and their steps.
-- HandleStream is called by one goroutine, one message after another; Send and Close are called by
-- any. A step is what a goroutine does between two points at which others can get in.
pub mod Closing
pub mod Refusals
mod Tests
use psrpc.Base.{
  ℕ, ◌+◌, ◌-◌, ◌<◌, ◌≡◌, Bool, true, false, not, List, [], ◌∷◌, ◌++◌, Option, none, some, Text,
  if◌then◌else◌, ltb, length, list_beq, is_some, text_comparable,
}
use psrpc.Base.Sets.{has, add, keep}
use psrpc.Errors.Values.{GoError, err_slow_consumer, err_stream_closed}

-- Where the one Close that takes effect stands: it waits for what is pending, or it has closed the
-- receive channel.
pub data Phase : Type 0 where
  running waiting finished : Phase

-- streamBase. `buffer` is what the receive channel holds; `receiving` says that HandleStream is at a
-- message, and `senders` counts the calls of Send in progress; `closes` counts how often the receive
-- channel was closed, and `panicked` says that something was sent on it afterwards.
pub record Stream (D : Type 0) : Type 0 where
  pub closed : Bool
  pub err : Option (GoError D)
  pub pending : ℕ
  pub acks : List Text
  pub buffer : List Text
  pub capacity : ℕ
  pub receiving : Bool
  pub senders : ℕ
  pub phase : Phase
  pub closes : ℕ
  pub panicked : Bool

module _ {D : Type 0} where
  unfoldable pub new_stream : ℕ → Stream D
  new_stream capacity = record {
    closed = false;
    err = none;
    pending = 0;
    acks = [];
    buffer = [];
    capacity = capacity;
    receiving = false;
    senders = 0;
    phase = running;
    closes = 0;
    panicked = false;
  }

  -- The error is that which addPending returns.
  unfoldable pub add_pending : Stream D → Stream D × Option (GoError D)
  add_pending s = ((if not s.closed then record s { pending = s.pending + 1 } else s), s.err)

  unfoldable pub set_closed : Stream D → GoError D → Stream D × Option (GoError D)
  set_closed s cause =
      if s.closed then (s, s.err) else (record s { closed = true; err = some cause }, none)

  -- A message: HandleStream goes on if addPending gave no error.
  unfoldable pub begin_message : Stream D × Option (GoError D) → Stream D
  begin_message (s, none) = record s { receiving = true }
  begin_message (s, some e) = s

  unfoldable pub handle_message : Stream D → Stream D
  unfolding begin_message add_pending
  handle_message s = begin_message (add_pending s)

  -- Recv; its error is returned.
  unfoldable pub recv : Stream D → Text → Stream D × Option (GoError D)
  recv s msg =
      if ltb 0 s.closes
      then (record s { panicked = true }, none)
      else if ltb (length s.buffer) s.capacity
      then (record s { buffer = s.buffer ++ msg ∷ [] }, none)
      else (s, some err_slow_consumer)

  unfoldable pub end_message : Stream D → Stream D
  end_message s = record s { pending = s.pending - 1; receiving = false }

  unfoldable pub handle_ack : Stream D → Text → Stream D
  handle_ack s id = record s { acks = keep (λ a. not (list_beq a id)) s.acks }

  -- Send, up to the registration of its acknowledgement, and its end.
  unfoldable pub begin_send : Stream D × Option (GoError D) → Stream D
  begin_send (s, none) = record s { senders = s.senders + 1 }
  begin_send (s, some e) = s

  unfoldable pub send : Stream D → Stream D
  unfolding begin_send add_pending
  send s = begin_send (add_pending s)

  unfoldable pub await_ack : Stream D → Text → Stream D
  await_ack s id = record s { acks = add s.acks id }

  unfoldable pub end_send : Stream D → Text → Stream D
  end_send s id = record s {
    acks = keep (λ a. not (list_beq a id)) s.acks;
    pending = s.pending - 1;
    senders = s.senders - 1;
  }

  -- `close(s.recvChan)`, after the adapter and the context.
  unfoldable pub close_recv : Stream D → Stream D
  close_recv s = record s { phase = finished; closes = s.closes + 1 }

  unfoldable pub begin_close : Stream D × Option (GoError D) → Stream D
  begin_close (s, none) = record s { phase = waiting }
  begin_close (s, some e) = s

  -- Close, up to the wait for what is pending; the cause is ErrStreamClosed where none is given.
  unfoldable pub close : Stream D → Option (GoError D) → Stream D
  unfolding begin_close set_closed
  close s none = begin_close (set_closed s err_stream_closed)
  close s (some cause) = begin_close (set_closed s cause)

  unfoldable pub end_close : Stream D → Stream D
  unfolding close_recv
  end_close s = close_recv s

  unfoldable pub remote_close : Stream D × Option (GoError D) → Stream D
  unfolding close_recv
  remote_close (s, none) = close_recv s
  remote_close (s, some e) = s

  -- The other side's close, with the error it gave.
  unfoldable pub handle_close : Stream D → GoError D → Stream D
  unfolding remote_close set_closed
  handle_close s cause = remote_close (set_closed s cause)

  pub data Step (s : Stream D) : Stream D → Type 0 where
    handles : s.receiving ≡ false → Step s (handle_message s)
    receives : (msg : Text) → s.receiving ≡ true → Step s (recv s msg).0
    handled : s.receiving ≡ true → Step s (end_message s)
    acked : (id : Text) → s.receiving ≡ false → Step s (handle_ack s id)
    sends : Step s (send s)
    awaits : (id : Text) → 0 < s.senders → Step s (await_ack s id)
    sent : (id : Text) → 0 < s.senders → Step s (end_send s id)
    closes_here : (cause : Option (GoError D)) → Step s (close s cause)
    drained : s.phase ≡ waiting → s.pending ≡ 0 → Step s (end_close s)
    closed_there : (cause : GoError D) → s.receiving ≡ false → Step s (handle_close s cause)

  pub data Reach (capacity : ℕ) : Stream D → Type 0 where
    start : Reach capacity (new_stream capacity)
    after : {s t : Stream D} → Reach capacity s → Step s t → Reach capacity t
