-- ===== src/Redis/Reconcile.antt =====
-- The channels that Redis is subscribed to follow those that have subscribers.
use psrpc.Base.{
  remove_first, ℕ, ◌≡◌, refl, ◌⊎◌, inl, inr, Bool, true, false, ◌&&◌, ◌||◌, not, List, [], ◌∷◌,
  Option, none, some, Text, text_eq_iff, Option-cases, arith, text_comparable,
}
use psrpc.Base.Assoc.{lookup, lookup-insert, lookup-delete}
use psrpc.Base.Sets.{has, copy_into, keep, has-add, has-copy_into, has-keep}
use psrpc.Redis.Transport.{
  SubList, Transport, new, appended, lists, subscribe, unsubscribe, unsubscribe_from, without,
  desired, plan, settle, Step, subscribes, unsubscribes, plans, settles, Reach, start, after,
}

-- What Redis will be subscribed to once the calls in flight succeed.
abbrev in_effect : Transport → Text → Bool
in_effect t c = elim t.flight [
  | none ↦ has t.current_channels c
  | some (s, u) ↦ not (has u c) && (has s c || has t.current_channels c)
]

-- A channel whose subscription does not fit its subscribers is marked dirty; and no channel is at
-- once subscribed and unsubscribed.
abbrev Settled : Transport → Text → Type 0
Settled t c = (in_effect t c ≡ desired t c) ⊎ (has t.dirty_channels c ≡ true)

abbrev Apart : Transport → Text → Type 0
Apart t c = elim t.flight [ none ↦ Unit {0} | some (s, u) ↦ (has s c && has u c) ≡ false ]

-- A channel's state is sound.
abbrev Sound : Transport → Text → Type 0
Sound t c = Settled t c × Apart t c

plan-Sound : (t : Transport) (c : Text) → t.flight ≡ none → Sound t c → Sound (plan t) c
unfolding plan desired has
plan-Sound t c idle h = ground (
  arith,
  has-keep (λ c. not (has t.current_channels c) && desired t c) t.dirty_channels c,
  has-keep (λ c. has t.current_channels c && not (desired t c)) t.dirty_channels c,
)

settle-Sound :
    (t : Transport) (s u : List Text) (a b : Bool) (c : Text)
    → t.flight ≡ some (s, u)
    → Sound t c
    → Sound (settle t s u a b) c
unfolding settle desired
settle-Sound t s u a b c e h = ground (
  arith,
  has-copy_into t.current_channels s c,
  has-copy_into t.dirty_channels s c,
  has-copy_into t.dirty_channels u c,
  has-copy_into (copy_into t.dirty_channels s) u c,
  has-keep (λ c. not (has u c)) t.current_channels c,
  has-keep (λ c. not (has u c)) (copy_into t.current_channels s) c,
)

subscribe-Sound :
    (t : Transport) (ch : Text) (sub : ℕ) (queue : Bool) (c : Text)
    → Sound t c
    → Sound (subscribe t ch sub queue) c
unfolding subscribe desired
subscribe-Sound t ch sub true c h = elim (Option-cases (lookup t.queues ch)) [
  | inl e ↦ rw e (
      ground (
        arith,
        lookup-insert t.queues ch (appended none sub) c,
        has-add t.dirty_channels ch c,
        text_eq_iff ch c,
      ))
  | inr (l, e) ↦
      rw e (ground (arith, lookup-insert t.queues ch (appended (some l) sub) c, text_eq_iff ch c))
]
subscribe-Sound t ch sub false c h = elim (Option-cases (lookup t.subs ch)) [
  | inl e ↦ rw e (
      ground (
        arith,
        lookup-insert t.subs ch (appended none sub) c,
        has-add t.dirty_channels ch c,
        text_eq_iff ch c,
      ))
  | inr (l, e) ↦
      rw e (ground (arith, lookup-insert t.subs ch (appended (some l) sub) c, text_eq_iff ch c))
]

without-Sound :
    (t : Transport) (ch : Text) (queue : Bool) (l : SubList) (left : Option (List ℕ)) (c : Text)
    → lookup (lists t queue) ch ≡ some l
    → Sound t c
    → Sound (without t ch queue l left) c
unfolding without desired
without-Sound t ch queue l none c e h = h
without-Sound t ch true l (some []) c e h =
    ground (arith, lookup-delete t.queues ch c, has-add t.dirty_channels ch c, text_eq_iff ch c)
without-Sound t ch false l (some []) c e h =
    ground (arith, lookup-delete t.subs ch c, has-add t.dirty_channels ch c, text_eq_iff ch c)
without-Sound t ch true l (some (s ∷ ss)) c e h =
    ground (arith, lookup-insert t.queues ch (record l { subs = s ∷ ss }) c, text_eq_iff ch c)
without-Sound t ch false l (some (s ∷ ss)) c e h =
    ground (arith, lookup-insert t.subs ch (record l { subs = s ∷ ss }) c, text_eq_iff ch c)

unsubscribe-Sound :
    (t : Transport) (ch : Text) (queue : Bool) (sub : ℕ) (c : Text)
    → Sound t c
    → Sound (unsubscribe t ch queue sub) c
unfolding unsubscribe unsubscribe_from
unsubscribe-Sound t ch queue sub c h = elim (Option-cases (lookup (lists t queue) ch)) [
  | inl e ↦ rw e h
  | inr (l, e) ↦ rw e (without-Sound t ch queue l (remove_first l.subs sub) c e h)
]

Step-Sound : {t u : Transport} (c : Text) → Step t u → Sound t c → Sound u c
Step-Sound {t} c (subscribes ch sub queue) h = subscribe-Sound t ch sub queue c h
Step-Sound {t} c (unsubscribes ch queue sub) h = unsubscribe-Sound t ch queue sub c h
Step-Sound {t} c (plans idle) h = plan-Sound t c idle h
Step-Sound {t} c (settles s u a b e) h = settle-Sound t s u a b c e h

Reach-Sound : {t : Transport} (c : Text) → Reach t → Sound t c
unfolding new desired lookup has
Reach-Sound c start = (inl refl, tt)
Reach-Sound c (after r st) = Step-Sound c st (Reach-Sound c r)

-- Whatever subscribers come and go, also while the worker waits for Redis, and whatever calls to
-- Redis fail: a channel that is not marked dirty, with no round in flight, is one that the worker
-- takes to be subscribed exactly when somebody subscribes to it. So no subscription is forgotten,
-- and none is kept for nobody.
pub clean_channel_agrees :
    (t : Transport) (c : Text)
    → Reach t
    → t.flight ≡ none
    → has t.dirty_channels c ≡ false
    → has t.current_channels c ≡ desired t c
clean_channel_agrees t c r idle clean = ground (arith, Reach-Sound c r)

-- One round without failures, and without subscribers coming or going meanwhile, leaves nothing
-- dirty, and the channels subscribed are exactly those with subscribers.
pub round_settles :
    (t : Transport) (c : Text)
    → Reach t
    → t.flight ≡ none
    → (s : List Text) × (u : List Text) × ((plan t).flight ≡ some (s, u))
      × ((settle (plan t) s u true true).dirty_channels ≡ [])
      × ((settle (plan t) s u true true).flight ≡ none)
      × (has (settle (plan t) s u true true).current_channels c ≡ desired t c)
unfolding plan
round_settles t c r idle =
    let s : List Text =
      keep (λ d. not (has t.current_channels d) && desired t d) t.dirty_channels in
    let u : List Text =
      keep (λ d. has t.current_channels d && not (desired t d)) t.dirty_channels in
    (
      s,
      u,
      refl,
      unfold settle in refl,
      unfold settle in refl,
      unfold settle desired has in
          clean_channel_agrees (settle (plan t) s u true true) c
            (after (after r (plans idle)) (settles s u true true refl)) refl refl,
    )
