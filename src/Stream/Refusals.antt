-- ===== src/Stream/Refusals.antt =====
-- What a closed stream refuses.
use psrpc.Base.{
  ◌+◌, ◌≡◌, refl, sym, subst, Bool, true, false, not, Option, none, some, Text, if◌then◌else◌, ltb,
  length, Bool-cases, inl, inr,
}
use psrpc.Errors.Values.{GoError, err_stream_closed}
use psrpc.Stream.{
  Stream, add_pending, set_closed, begin_message, handle_message, recv, end_message, handle_ack,
  begin_send, send, await_ack, end_send, close_recv, begin_close, close, end_close, remote_close,
  handle_close, Step, handles, receives, handled, acked, sends, awaits, sent, closes_here, drained,
  closed_there,
}

module _ {D : Type 0} where
  send-refused : (s : Stream D) {e : GoError D} → s.closed ≡ true → s.err ≡ some e → send s ≡ s
  unfolding send add_pending begin_send
  send-refused s = go s.closed s.err
    where
      go :
          (c : Bool) (o : Option (GoError D)) {e : GoError D}
          → c ≡ true
          → o ≡ some e
          → begin_send ((if not c then record s { pending = s.pending + 1 } else s), o) ≡ s
      go true none p q = cc
      go true (some x) p q = refl
      go false o p q = cc

  message-refused :
      (s : Stream D) {e : GoError D} → s.closed ≡ true → s.err ≡ some e → handle_message s ≡ s
  unfolding handle_message add_pending begin_message
  message-refused s = go s.closed s.err
    where
      go :
          (c : Bool) (o : Option (GoError D)) {e : GoError D}
          → c ≡ true
          → o ≡ some e
          → begin_message ((if not c then record s { pending = s.pending + 1 } else s), o) ≡ s
      go true none p q = cc
      go true (some x) p q = refl
      go false o p q = cc

  -- A close of a closed stream, from either side.
  set_closed-refused :
      (s : Stream D) {e : GoError D}
      → s.closed ≡ true
      → s.err ≡ some e
      → (cause : GoError D) → begin_close (set_closed s cause) ≡ s
  unfolding set_closed begin_close
  set_closed-refused s c p cause = go s.closed s.err cause c p
    where
      go :
          (c : Bool) (o : Option (GoError D)) {e : GoError D} (x : GoError D)
          → c ≡ true
          → o ≡ some e
          → begin_close (if c then (s, o) else (record s { closed = true; err = some x }, none)) ≡ s
      go true none x p q = cc
      go true (some y) x p q = refl
      go false o x p q = cc

  close-refused :
      (s : Stream D) {e : GoError D}
      → s.closed ≡ true
      → s.err ≡ some e
      → (cause : Option (GoError D)) → close s cause ≡ s
  unfolding close
  close-refused s c p none = set_closed-refused s c p err_stream_closed
  close-refused s c p (some cause) = set_closed-refused s c p cause

  remote-refused :
      (s : Stream D) {e : GoError D}
      → s.closed ≡ true
      → s.err ≡ some e
      → (cause : GoError D) → handle_close s cause ≡ s
  unfolding handle_close set_closed remote_close
  remote-refused s c p cause = go s.closed s.err cause c p
    where
      go :
          (c : Bool) (o : Option (GoError D)) {e : GoError D} (x : GoError D)
          → c ≡ true
          → o ≡ some e
          → remote_close (if c then (s, o) else (record s { closed = true; err = some x }, none))
            ≡ s
      go true none x p q = cc
      go true (some y) x p q = refl
      go false o x p q = cc

  abbrev Caused : GoError D → Stream D → Type 0
  Caused e s = (s.closed ≡ true) × (s.err ≡ some e)

  recv-Caused : (s : Stream D) (msg : Text) (e : GoError D) → Caused e s → Caused e (recv s msg).0
  unfolding recv
  recv-Caused s msg e h = elim (Bool-cases (ltb 0 s.closes)) [
    | inl k ↦ rw k h
    | inr k ↦
        rw k
          (elim (Bool-cases (ltb (length s.buffer) s.capacity)) [ inl l ↦ rw l h | inr l ↦ rw l h ])
  ]

  Step-Caused : {s t : Stream D} {e : GoError D} → Step s t → Caused e s → Caused e t
  unfolding end_message handle_ack await_ack end_send end_close close_recv
  Step-Caused {s} {e = e} (handles r) h = subst (Caused e) (sym (message-refused s h.0 h.1)) h
  Step-Caused {s} {e = e} (receives msg r) h = recv-Caused s msg e h
  Step-Caused (handled r) h = h
  Step-Caused (acked id r) h = h
  Step-Caused {s} {e = e} sends h = subst (Caused e) (sym (send-refused s h.0 h.1)) h
  Step-Caused (awaits id r) h = h
  Step-Caused (sent id r) h = h
  Step-Caused {s} {e = e} (closes_here cause) h =
      subst (Caused e) (sym (close-refused s h.0 h.1 cause)) h
  Step-Caused (drained r q) h = h
  Step-Caused {s} {e = e} (closed_there cause r) h =
      subst (Caused e) (sym (remote-refused s h.0 h.1 cause)) h

  -- A stream that is closed stays closed for its first cause; new sends and messages are refused with
  -- it and leave the stream as it is, and so are further closes.
  pub first_cause_stays :
      {s t : Stream D} {e : GoError D}
      → s.closed ≡ true
      → s.err ≡ some e
      → Step s t
      → (t.closed ≡ true)
        × (t.err ≡ some e)
        × (send s ≡ s)
        × (handle_message s ≡ s)
        × ((cause : Option (GoError D)) → close s cause ≡ s)
        × ((cause : GoError D) → handle_close s cause ≡ s)
  first_cause_stays {s} {t} c p st =
      let (a, b) = Step-Caused st (c, p) in
      (a, b, send-refused s c p, message-refused s c p, close-refused s c p, remote-refused s c p)
