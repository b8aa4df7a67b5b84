-- ===== src/Redis/Transport.antt =====
-- redisbus.go: transport, its lists of subscriptions, and the reconciliation of the channels that
-- Redis is subscribed to with those that have subscribers.
use psrpc.Base.{
  remove_first, ℕ, ◌≡◌, Bool, true, false, ◌&&◌, ◌||◌, not, List, [], ◌∷◌, ◌++◌, Option, none, some,
  Text, if◌then◌else◌, is_some, text_comparable,
}
use psrpc.Base.Assoc.{lookup, insert, delete}
use psrpc.Base.Sets.{has, add, copy_into, keep}

-- redisSubList. A subscription is known by a number, its identity.
pub record SubList : Type 0 where
  pub subs : List ℕ
  pub next : ℕ

-- transport, with what the running reconciliation has asked of Redis: the channels to subscribe and
-- to unsubscribe. The lock is not held meanwhile.
pub record Transport : Type 0 where
  pub subs : List (Text × SubList)
  pub queues : List (Text × SubList)
  pub dirty_channels : List Text
  pub current_channels : List Text
  pub flight : Option (List Text × List Text)

unfoldable pub new : Transport
new = record { subs = []; queues = []; dirty_channels = []; current_channels = []; flight = none }

reconcile_subscriptions : Transport → Text → Transport
reconcile_subscriptions t channel = record t { dirty_channels = add t.dirty_channels channel }

with_list : Transport → Bool → List (Text × SubList) → Transport
with_list t true m = record t { queues = m }
with_list t false m = record t { subs = m }

abbrev pub lists : Transport → Bool → List (Text × SubList)
lists t true = t.queues
lists t false = t.subs

-- `subList.subs = append(subList.subs, sub)`.
unfoldable pub appended : Option SubList → ℕ → SubList
appended none sub = record { subs = sub ∷ []; next = 0 }
appended (some l) sub = record l { subs = l.subs ++ sub ∷ [] }

unfoldable pub subscribe : Transport → Text → ℕ → Bool → Transport
unfolding reconcile_subscriptions with_list appended
subscribe t channel sub queue =
    let found = lookup (lists t queue) channel in
    let t' = if is_some found then t else reconcile_subscriptions t channel in
    with_list t' queue (insert (lists t queue) channel (appended found sub))

unfoldable pub without : Transport → Text → Bool → SubList → Option (List ℕ) → Transport
unfolding reconcile_subscriptions with_list
without t channel queue l none = t
without t channel queue l (some []) =
    reconcile_subscriptions (with_list t queue (delete (lists t queue) channel)) channel
without t channel queue l (some (s ∷ ss)) =
    with_list t queue (insert (lists t queue) channel (record l { subs = s ∷ ss }))

unfoldable pub unsubscribe_from : Transport → Text → Bool → ℕ → Option SubList → Transport
unfolding without remove_first
unsubscribe_from t channel queue sub none = t
unsubscribe_from t channel queue sub (some l) = without t channel queue l (remove_first l.subs sub)

unfoldable pub unsubscribe : Transport → Text → Bool → ℕ → Transport
unfolding unsubscribe_from remove_first
unsubscribe t channel queue sub =
    unsubscribe_from t channel queue sub (lookup (lists t queue) channel)

-- `r.subs[c] != nil || r.queues[c] != nil`.
unfoldable pub desired : Transport → Text → Bool
desired t c = is_some (lookup t.subs c) || is_some (lookup t.queues c)

-- The first half of a round of redisReconcileSubscriptionsOp.run: what to ask of Redis.
unfoldable pub plan : Transport → Transport
plan t = record t {
  flight = some (
    keep (λ c. not (has t.current_channels c) && desired t c) t.dirty_channels,
    keep (λ c. has t.current_channels c && not (desired t c)) t.dirty_channels,
  );
  dirty_channels = [];
}

-- The second half: `subscribed` and `unsubscribed` say that the calls gave no error.
unfoldable pub settle : Transport → List Text → List Text → Bool → Bool → Transport
settle t subscribe unsubscribe subscribed unsubscribed =
    let t' =
      if subscribed
      then record t { current_channels = copy_into t.current_channels subscribe }
      else record t { dirty_channels = copy_into t.dirty_channels subscribe } in
    let t'' =
      if unsubscribed
      then record t' { current_channels = keep (λ c. not (has unsubscribe c)) t'.current_channels }
      else record t' { dirty_channels = copy_into t'.dirty_channels unsubscribe } in
    record t'' { flight = none }

-- What the program and its environment do: subscribers come and go at any time, also while the
-- worker waits for Redis; the worker runs one round at a time.
pub data Step (t : Transport) : Transport → Type 0 where
  subscribes : (channel : Text) (sub : ℕ) (queue : Bool) → Step t (subscribe t channel sub queue)
  unsubscribes :
      (channel : Text) (queue : Bool) (sub : ℕ) → Step t (unsubscribe t channel queue sub)
  plans : t.flight ≡ none → Step t (plan t)
  settles :
      (subscribe unsubscribe : List Text) (subscribed unsubscribed : Bool)
      → t.flight ≡ some (subscribe, unsubscribe)
      → Step t (settle t subscribe unsubscribe subscribed unsubscribed)

pub data Reach : Transport → Type 0 where
  start : Reach new
  after : {t u : Transport} → Reach t → Step t u → Reach u
