-- ===== src/LocalBus/Tests.antt =====
-- Runs of the local bus: a subscription leaves a nil slot, which the round passes over.
use psrpc.Base.{
  ℕ, ◌+◌, ◌≡◌, refl, true, [], ◌∷◌, none, some, Text, text, length, get_elem?, text_comparable,
}
use psrpc.Base.Assoc.{lookup, insert, delete}
use psrpc.LocalBus.Transport.{
  SubList, Transport, new, with_lists, placed, create, found_or_new, subscribe, unsubscribed,
  on_unsubscribe, closed_in, live, written, dispatch_queue, round_robin, at_slot,
}
use psrpc.LocalBus.Counts.{Reach, start, after, subscribes, closes, reached_queue_delivers}

abbrev jobs : Text
jobs = text "jobs"

abbrev three : SubList
three = record { subs = some 1 ∷ some 2 ∷ some 3 ∷ []; sub_count = 3; queue = true; next = 0 }

abbrev two : SubList
two = record { subs = some 1 ∷ none ∷ some 3 ∷ []; sub_count = 2; queue = true; next = 0 }

abbrev turned : SubList
turned = record two { next = 1 }

skip_run : dispatch_queue turned ≡ written 3 (record two { next = 3 })
unfolding dispatch_queue round_robin at_slot
skip_run = refl

abbrev opened : Transport
opened = subscribe (subscribe (subscribe new jobs 1 true) jobs 2 true) jobs 3 true

opened-Reach : Reach opened
opened-Reach =
    after (after (after start (subscribes jobs 1 true)) (subscribes jobs 2 true))
      (subscribes jobs 3 true)

abbrev left : Transport
left = on_unsubscribe opened jobs true 1

left-Reach : Reach left
left-Reach = after opened-Reach (
    closes jobs true three 1 2
      (unfold subscribe found_or_new create placed with_lists new lookup insert in refl) refl)

reached_queue_delivers_example :
    (two.sub_count ≡ length (live two.subs))
    × ((r : ℕ) × (i : ℕ) × (get_elem? two.subs i ≡ some (some r))
        × (dispatch_queue two ≡ written r (record two { next = i + 1 })))
reached_queue_delivers_example = reached_queue_delivers left jobs two left-Reach (
    unfold on_unsubscribe closed_in unsubscribed subscribe found_or_new create placed with_lists new
      lookup insert delete in
    refl)
