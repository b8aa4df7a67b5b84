-- ===== src/Stream/Closing.antt =====
-- A stream is closed once, for one cause, and nothing is received on a closed channel.
use psrpc.Base.{
  ℕ, ◌+◌, ◌≤◌, ◌<◌, ◌≡◌, refl, Bool, true, false, not, [], ◌∷◌, Option, none, some, Text,
  if◌then◌else◌, ltb, length, is_some, arith, Bool-cases, Option-cases, inl, inr, length-append,
}
use psrpc.Errors.Values.{GoError, err_stream_closed}
use psrpc.Stream.{
  Stream, Phase, running, waiting, finished, new_stream, add_pending, set_closed, begin_message,
  handle_message, recv, end_message, handle_ack, begin_send, send, await_ack, end_send, close_recv,
  begin_close, close, end_close, remote_close, handle_close, Step, handles, receives, handled,
  acked, sends, awaits, sent, closes_here, drained, closed_there, Reach, start, after,
}

-- What a phase says of the closes of the receive channel, and of the stream's being closed.
abbrev Tells : Phase → Bool → ℕ → Type 0
Tells running closed n = (closed ≡ false) × (n ≡ 0)
Tells waiting closed n = (closed ≡ true) × (n ≡ 0)
Tells finished closed n = (closed ≡ true) × (n ≡ 1)

module _ {D : Type 0} where
  record Sound (capacity : ℕ) (s : Stream D) : Type 0 where
    counted : s.pending ≡ (if s.receiving then s.senders + 1 else s.senders)
    errs : is_some s.err ≡ s.closed
    tells : Tells s.phase s.closed s.closes
    quiet : 0 < s.closes → s.receiving ≡ false
    calm : s.panicked ≡ false
    fits : length s.buffer ≤ capacity
    same : s.capacity ≡ capacity

  -- In the lemmas below `c` and `o` stand for the fields `closed` and `err`.
  message-Sound :
      (n : ℕ) (s : Stream D) (c : Bool) (o : Option (GoError D))
      → s.closed ≡ c
      → s.err ≡ o
      → s.receiving ≡ false
      → Sound n s
      → Sound n (begin_message ((if not c then record s { pending = s.pending + 1 } else s), o))
  unfolding begin_message
  message-Sound n s c (some e) p q r h = elim (Bool-cases c) [
    | inl k ↦ rw k h
    | inr k ↦ ground arith
  ]
  message-Sound n s true none p q r h = ground arith
  message-Sound n s false none p q r h = ground arith

  send-Sound :
      (n : ℕ) (s : Stream D) (c : Bool) (o : Option (GoError D))
      → s.closed ≡ c
      → s.err ≡ o
      → Sound n s
      → Sound n (begin_send ((if not c then record s { pending = s.pending + 1 } else s), o))
  unfolding begin_send
  send-Sound n s c (some e) p q h = elim (Bool-cases c) [ inl k ↦ rw k h | inr k ↦ ground arith ]
  send-Sound n s true none p q h = ground arith
  send-Sound n s false none p q h = ground arith

  recv-Sound :
      (n : ℕ) (s : Stream D) (msg : Text) → s.receiving ≡ true → Sound n s → Sound n (recv s msg).0
  unfolding recv
  recv-Sound n s msg r h = elim (Bool-cases (ltb 0 s.closes)) [
    | inl k ↦ ground arith
    | inr k ↦ rw k (elim (Bool-cases (ltb (length s.buffer) s.capacity)) [
      | inl l ↦ rw l (ground (arith, length-append s.buffer (msg ∷ [])))
      | inr l ↦ rw l h
    ])
  ]

  closing-Sound :
      (n : ℕ) (s : Stream D) (cause : GoError D) (c : Bool)
      → s.closed ≡ c
      → Sound n s
      → Sound n (
          begin_close
            (if c then (s, s.err) else (record s { closed = true; err = some cause }, none)))
  unfolding begin_close
  closing-Sound n s cause true p h = elim (Option-cases s.err) [
    | inl k ↦ ground arith
    | inr (e, k) ↦ rw k h
  ]
  closing-Sound n s cause false p h = ground arith

  remote-Sound :
      (n : ℕ) (s : Stream D) (cause : GoError D) (c : Bool)
      → s.closed ≡ c
      → s.receiving ≡ false
      → Sound n s
      → Sound n (
          remote_close
            (if c then (s, s.err) else (record s { closed = true; err = some cause }, none)))
  unfolding remote_close close_recv
  remote-Sound n s cause true p r h = elim (Option-cases s.err) [
    | inl k ↦ ground arith
    | inr (e, k) ↦ rw k h
  ]
  remote-Sound n s cause false p r h = ground arith

  Step-Sound : (n : ℕ) {s t : Stream D} → Step s t → Sound n s → Sound n t
  unfolding handle_message add_pending set_closed end_message handle_ack send await_ack end_send
      close end_close handle_close close_recv
  Step-Sound n {s} (handles e) h = message-Sound n s s.closed s.err refl refl e h
  Step-Sound n {s} (receives msg e) h = recv-Sound n s msg e h
  Step-Sound n {s} (handled e) h = ground arith
  Step-Sound n {s} (acked id e) h = ground arith
  Step-Sound n {s} sends h = send-Sound n s s.closed s.err refl refl h
  Step-Sound n {s} (awaits id e) h = ground arith
  Step-Sound n {s} (sent id e) h = ground arith
  Step-Sound n {s} (closes_here none) h = closing-Sound n s err_stream_closed s.closed refl h
  Step-Sound n {s} (closes_here (some cause)) h = closing-Sound n s cause s.closed refl h
  Step-Sound n {s} (drained e f) h = ground arith
  Step-Sound n {s} (closed_there cause e) h = remote-Sound n s cause s.closed refl e h

  Reach-Sound : {n : ℕ} {s : Stream D} → Reach n s → Sound n s
  unfolding new_stream
  Reach-Sound {n} start = ground arith
  Reach-Sound {n} (after r t) = Step-Sound n t (Reach-Sound r)

  -- Whatever goroutines do with a stream, in whatever order, while its messages are handled one after
  -- another: nothing is sent on its receive channel after that was closed, the channel is closed at
  -- most once, what is pending are the sends in progress and the message being handled, the stream
  -- has an error exactly if it is closed, and its buffer never holds more than its capacity.
  pub stream_is_sound :
      {n : ℕ} {s : Stream D}
      → Reach n s
      → (s.panicked ≡ false)
        × (s.closes ≤ 1)
        × (s.pending ≡ (if s.receiving then s.senders + 1 else s.senders))
        × (is_some s.err ≡ s.closed)
        × (length s.buffer ≤ n)
  stream_is_sound r =
      let h = Reach-Sound r in ground (arith, h.calm, h.tells, h.counted, h.errs, h.fits)
