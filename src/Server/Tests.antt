-- ===== src/Server/Tests.antt =====
-- Runs of a handler, where a close begins while one request waits and another is handled, and of a
-- registration that fails.
use psrpc.Base.{ℕ, List, [], ◌∷◌, none, some, ◌+◌, ◌≡◌, refl, true, false, arith}
use psrpc.Server.Draining.{
  Handler, new_handler, arrive, take_request, end_handling, drain, begin_closing, end_closing,
  arrives, takes, ends, drains, begins, waits, Reach, start, after, graceful_close_loses_nothing,
}
use psrpc.Server.Registration.{
  Registerer, Registered, tried, register_from, register, failed_register_undone,
}

abbrev closing : Handler
closing = begin_closing false (arrive (take_request true (arrive new_handler)))

abbrev over : Handler
over = end_closing (end_handling (end_handling (drain (take_request true closing))))

over-Reach : Reach over
unfolding new_handler arrive take_request end_handling drain begin_closing
over-Reach =
    after
      (after
        (after
          (after
            (after
              (after
                (after (after (after start (arrives refl)) (takes true (omega arith)))
                  (arrives refl))
                (begins false refl))
              (takes true (omega arith)))
            (drains refl refl refl))
          (ends (omega arith)))
        (ends (omega arith)))
      (waits refl refl refl refl)

graceful_close_loses_nothing_example :
    (over.received ≡ over.finished + over.dropped)
    × (over.queued ≡ 0)
    × (over.handling ≡ 0)
    × (over.subscribed ≡ false)
graceful_close_loses_nothing_example =
    graceful_close_loses_nothing over-Reach (unfold end_closing in refl)
      (unfold new_handler arrive take_request end_handling drain begin_closing end_closing in refl)

abbrev nobody : Registered
nobody = λ k. false

abbrev third_fails : List (Registerer ℕ)
third_fails =
    record { handler = 1; error = none }
    ∷ record { handler = 2; error = none }
    ∷ record { handler = 3; error = some 7 }
    ∷ []

failed_register_undone_example : (register third_fails nobody).0 1 ≡ false
failed_register_undone_example =
    failed_register_undone third_fails nobody 7 1 (refl, (refl, (refl, tt)))
      (unfold register register_from tried in refl)
