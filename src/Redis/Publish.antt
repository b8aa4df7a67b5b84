-- ===== src/Redis/Publish.antt =====
-- redisbus.go: the publish queues, one to a bucket of channels, and the delays of the read worker.
use psrpc.Base.{
  ℕ, ◌%◌, ◌≡◌, refl, ap, ◌⊎◌, inl, inr, Bool, true, false, ◌||◌, List, [], ◌∷◌, ◌++◌, append_assoc,
  append-nil, Text, text_eq_iff, list_beq, if◌then◌else◌, nat_beq, nat_beq_iff, Bool-cases, arith,
}

pub record Message : Type 0 where
  pub channel : Text
  pub payload : Text

-- redisPublishQueue. `awake` says that the worker has taken the wakeup and not yet the messages, and
-- `sent` is what it has put into pipelines, in order.
pub record PublishQueue : Type 0 where
  pub messages : List Message
  pub wakeup : Bool
  pub awake : Bool
  pub sent : List Message

-- The queues of the buckets, and all that was ever published.
pub record Publisher : Type 0 where
  pub queue : ℕ → PublishQueue
  pub published : List Message

abbrev publish_buckets : ℕ
publish_buckets = 17

abbrev empty_queue : PublishQueue
empty_queue = record { messages = []; wakeup = false; awake = false; sent = [] }

unfoldable pub idle_publisher : Publisher
idle_publisher = record { queue = λ b. empty_queue; published = [] }

unfoldable pub enqueue : PublishQueue → Message → PublishQueue
enqueue q m = record q { messages = q.messages ++ m ∷ []; wakeup = true }

-- The worker's two steps: it receives the wakeup, and then takes all messages under the lock.
unfoldable pub wake : PublishQueue → PublishQueue
wake q = record q { wakeup = false; awake = true }

unfoldable pub take_all : PublishQueue → PublishQueue
take_all q = record q { messages = []; awake = false; sent = q.sent ++ q.messages }

unfoldable pub at_bucket : ℕ → (PublishQueue → PublishQueue) → Publisher → Publisher
at_bucket b f p = record p { queue = λ c. if nat_beq c b then f (p.queue c) else p.queue c }

-- `hash` stands for xxh3.HashString.
module _ (hash : Text → ℕ) where
  unfoldable pub bucket : Text → ℕ
  bucket channel = hash channel % publish_buckets

  unfoldable pub publish : Publisher → Message → Publisher
  unfolding at_bucket enqueue bucket
  publish p m = record (at_bucket (bucket m.channel) (λ q. enqueue q m) p) {
    published = p.published ++ m ∷ [];
  }

  pub data Step (p : Publisher) : Publisher → Type 0 where
    publishes : (m : Message) → Step p (publish p m)
    wakes : (b : ℕ) → (p.queue b).wakeup ≡ true → Step p (at_bucket b wake p)
    takes : (b : ℕ) → (p.queue b).awake ≡ true → Step p (at_bucket b take_all p)

  pub data Reach : Publisher → Type 0 where
    start : Reach idle_publisher
    after : {p q : Publisher} → Reach p → Step p q → Reach q

-- The messages of one channel.
abbrev pub on_channel : Text → List Message → List Message
on_channel c [] = []
on_channel c (m ∷ ms) = if list_beq m.channel c then m ∷ on_channel c ms else on_channel c ms

on_channel-append :
    (c : Text) (ms ns : List Message) → on_channel c (ms ++ ns) ≡ on_channel c ms ++ on_channel c ns
on_channel-append c [] ns = refl
on_channel-append c (m ∷ ms) ns = ground (arith, on_channel-append c ms ns)

module _ (hash : Text → ℕ) (c : Text) where
  -- The bucket of a channel holds its messages in order, and a queue with messages will be served.
  record InOrder (p : Publisher) : Type 0 where
    ordered :
        let q = p.queue (bucket hash c) in
        on_channel c (q.sent ++ q.messages) ≡ on_channel c p.published
    awaited : let q = p.queue (bucket hash c) in (q.messages ≡ []) ⊎ ((q.wakeup || q.awake) ≡ true)

  publish-InOrder : (p : Publisher) (m : Message) → InOrder p → InOrder (publish hash p m)
  unfolding publish
  publish-InOrder p m v = elim (Bool-cases (list_beq m.channel c)) [
    | inl e ↦
        let b : bucket hash m.channel ≡ bucket hash c =
          ap (bucket hash) ((text_eq_iff m.channel c).0 e) in
        let q = p.queue (bucket hash c) in
        ground (
          arith,
          nat_beq_iff (bucket hash c) (bucket hash m.channel),
          on_channel-append c p.published (m ∷ []),
          on_channel-append c (q.sent ++ q.messages) (m ∷ []),
          append_assoc q.sent q.messages (m ∷ []),
        )
    | inr e ↦
        let q = p.queue (bucket hash c) in
        ground (
          arith,
          append-nil (on_channel c p.published),
          append-nil (on_channel c (q.sent ++ q.messages)),
          on_channel-append c p.published (m ∷ []),
          on_channel-append c (q.sent ++ q.messages) (m ∷ []),
          append_assoc q.sent q.messages (m ∷ []),
        )
  ]

  wake-InOrder : (p : Publisher) (b : ℕ) → InOrder p → InOrder (at_bucket b wake p)
  unfolding at_bucket wake
  wake-InOrder p b v = ground (arith)

  take-InOrder : (p : Publisher) (b : ℕ) → InOrder p → InOrder (at_bucket b take_all p)
  unfolding at_bucket take_all
  take-InOrder p b v =
      let q = p.queue (bucket hash c) in ground (arith, append-nil (q.sent ++ q.messages))

  Reach-InOrder : {p : Publisher} → Reach hash p → InOrder p
  unfolding idle_publisher
  Reach-InOrder start = record { ordered = refl; awaited = inl refl }
  Reach-InOrder (after {p} r (publishes m)) = publish-InOrder p m (Reach-InOrder r)
  Reach-InOrder (after {p} r (wakes b e)) = wake-InOrder p b (Reach-InOrder r)
  Reach-InOrder (after {p} r (takes b e)) = take-InOrder p b (Reach-InOrder r)

-- Whatever is published, by whomever, and however the workers are scheduled: once the queue of a
-- channel's bucket has no wakeup pending and its worker is not about to take messages, the worker
-- has put into pipelines exactly the messages published on that channel, each once and in order.
pub channel_in_order :
    (hash : Text → ℕ) (c : Text) (p : Publisher)
    → Reach hash p
    → (p.queue (bucket hash c)).wakeup ≡ false
    → (p.queue (bucket hash c)).awake ≡ false
    → on_channel c (p.queue (bucket hash c)).sent ≡ on_channel c p.published
channel_in_order hash c p r w a =
    let q = p.queue (bucket hash c) in
    let v = Reach-InOrder hash c r in ground (arith, v.ordered, v.awaited, append-nil q.sent)
