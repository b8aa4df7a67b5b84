-- ===== src/Redis/Tests.antt =====
-- Runs of the Redis transport: a round that fails, a subscriber that leaves meanwhile, and queues.
use psrpc.Base.{
  remove_first, ℕ, ◌≡◌, refl, true, List, [], ◌∷◌, none, some, Text, text, length, text_comparable,
}
use psrpc.Base.Assoc.{lookup, insert, delete}
use psrpc.Base.Sets.{has, add, copy_into, keep}
use psrpc.Redis.Transport.{
  SubList, Transport, new, appended, subscribe, unsubscribe, unsubscribe_from, without, desired,
  plan, settle, subscribes, unsubscribes, plans, settles, Reach, start, after,
}
use psrpc.Redis.Reconcile.{clean_channel_agrees, round_settles}
use psrpc.Redis.Lists.{dispatch_queue, serve}
use psrpc.Redis.Publish
use psrpc.Redis.Publish.{
  Message, Publisher, PublishQueue, idle_publisher, enqueue, wake, take_all, at_bucket, bucket,
  publish, publishes, wakes, takes, on_channel, channel_in_order,
}

abbrev orders : Text
orders = text "orders"

abbrev one : Transport
one = subscribe new orders 1 true

abbrev two : Transport
two = subscribe one orders 2 true

two-Reach : Reach two
two-Reach = after (after start (subscribes orders 1 true)) (subscribes orders 2 true)

abbrev asked : List Text
asked = orders ∷ []

-- While Redis subscribes, both subscribers leave.
abbrev gone : Transport
gone = unsubscribe (unsubscribe (plan two) orders true 1) orders true 2

-- The subscription succeeds, and a second round undoes it.
abbrev undone : Transport
undone = settle (plan (settle gone asked [] true true)) [] asked true true

undone-Reach : Reach undone
unfolding settle plan unsubscribe unsubscribe_from without remove_first subscribe appended new
    desired lookup insert delete add has keep copy_into
undone-Reach =
    after
      (after
        (after
          (after (after (after two-Reach (plans refl)) (unsubscribes orders true 1))
            (unsubscribes orders true 2))
          (settles asked [] true true refl))
        (plans refl))
      (settles [] asked true true refl)

clean_channel_agrees_example : has undone.current_channels orders ≡ desired undone orders
clean_channel_agrees_example =
    clean_channel_agrees undone orders undone-Reach (unfold settle in refl) (
      unfold settle plan unsubscribe unsubscribe_from without remove_first subscribe appended new
        desired lookup insert delete add has keep copy_into in
      refl)

round_settles_example :
    (s : List Text) × (u : List Text) × ((plan two).flight ≡ some (s, u))
    × ((settle (plan two) s u true true).dirty_channels ≡ [])
    × ((settle (plan two) s u true true).flight ≡ none)
    × (has (settle (plan two) s u true true).current_channels orders ≡ desired two orders)
round_settles_example =
    round_settles two orders two-Reach (unfold subscribe appended new lookup insert add has in refl)

abbrev three : SubList
three = record { subs = 7 ∷ 8 ∷ 9 ∷ []; next = 2 }

serve_run : serve 4 three ≡ some (9 ∷ 7 ∷ 8 ∷ 9 ∷ [])
unfolding serve dispatch_queue
serve_run = refl

abbrev pair : SubList
pair = record { subs = 1 ∷ 2 ∷ []; next = 0 }

abbrev first : Message
first = record { channel = orders; payload = text "1" }

abbrev second : Message
second = record { channel = orders; payload = text "2" }

abbrev sum_hash : Text → ℕ
sum_hash t = length t

-- Two messages; the second arrives after the worker has woken and before it takes the first.
abbrev flushed : Publisher
flushed = at_bucket 6 take_all (
    at_bucket 6 wake (
      at_bucket 6 take_all
        (publish sum_hash (at_bucket 6 wake (publish sum_hash idle_publisher first)) second)))

flushed-Reach : Publish.Reach sum_hash flushed
unfolding at_bucket wake take_all publish enqueue bucket idle_publisher
flushed-Reach =
    Publish.after
      (Publish.after
        (Publish.after
          (Publish.after
            (Publish.after (Publish.after Publish.start (publishes first)) (wakes 6 refl))
            (publishes second))
          (takes 6 refl))
        (wakes 6 refl))
      (takes 6 refl)

channel_in_order_example :
    on_channel orders (flushed.queue (bucket sum_hash orders)).sent
    ≡ on_channel orders flushed.published
channel_in_order_example =
    channel_in_order sum_hash orders flushed flushed-Reach
      (unfold at_bucket wake take_all publish enqueue bucket idle_publisher in refl)
      (unfold at_bucket wake take_all publish enqueue bucket idle_publisher in refl)
