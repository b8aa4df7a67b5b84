-- ===== src/Stream/Tests.antt =====
-- A run of a stream: it is closed here while a message is handled, and the other side closes it too.
use psrpc.Base.{
  ℕ, ◌+◌, ◌≤◌, ◌≡◌, refl, true, false, [], ◌∷◌, Option, none, some, text, length, is_some,
  if◌then◌else◌,
}
use psrpc.Errors.Values.{GoError, err_stream_closed, err_stream_eof}
use psrpc.Stream.{
  Stream, new_stream, add_pending, set_closed, begin_message, handle_message, recv, end_message,
  send, close, begin_close, end_close, close_recv, handle_close, handles, receives, handled,
  closes_here, drained, closed_there, Reach, start, after,
}
use psrpc.Stream.Closing.{stream_is_sound}
use psrpc.Stream.Refusals.{first_cause_stays}

abbrev fresh : Stream ℕ
fresh = new_stream 2

abbrev busy : Stream ℕ
busy = handle_message fresh

-- Close waits for the message, which is still received.
abbrev got : Stream ℕ
got = (recv (close busy none) (text "m")).0

abbrev over : Stream ℕ
over = end_close (end_message got)

over-Reach : Reach 2 over
unfolding new_stream handle_message add_pending begin_message recv close set_closed begin_close
    end_message
over-Reach =
    after
      (after
        (after (after (after start (handles refl)) (closes_here none)) (receives (text "m") refl))
        (handled refl))
      (drained refl refl)

over_run : over.buffer ≡ text "m" ∷ []
unfolding new_stream handle_message add_pending begin_message recv close set_closed begin_close
    end_message end_close close_recv
over_run = refl

stream_is_sound_example :
    (over.panicked ≡ false)
    × (over.closes ≤ 1)
    × (over.pending ≡ (if over.receiving then over.senders + 1 else over.senders))
    × (is_some over.err ≡ over.closed)
    × (length over.buffer ≤ 2)
stream_is_sound_example = stream_is_sound over-Reach

abbrev twice : Stream ℕ
twice = handle_close over err_stream_eof

first_cause_stays_example :
    (twice.closed ≡ true)
    × (twice.err ≡ some err_stream_closed)
    × (send over ≡ over)
    × (handle_message over ≡ over)
    × ((cause : Option (GoError ℕ)) → close over cause ≡ over)
    × ((cause : GoError ℕ) → handle_close over cause ≡ over)
first_cause_stays_example =
    first_cause_stays
      (unfold new_stream handle_message add_pending begin_message recv close set_closed begin_close
          end_message end_close close_recv in
        refl)
      (unfold new_stream handle_message add_pending begin_message recv close set_closed begin_close
          end_message end_close close_recv in
        refl)
      (closed_there err_stream_eof (
        unfold new_stream handle_message add_pending begin_message recv close set_closed begin_close
          end_message end_close close_recv in
        refl))
