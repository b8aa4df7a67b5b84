-- ===== src/LocalBus/Counts.antt =====
-- The lists of the local bus count their subscriptions.
use psrpc.Base.{
  ap, ℕ, suc, zero, ◌+◌, ◌-◌, ◌<◌, ◌≡◌, refl, subst, Bool, true, false, List, [], ◌∷◌, Option, none,
  some, length, get_elem?, set, arith, Bool-cases, inl, inr, Text, text_comparable, nat_beq,
}
use psrpc.Base.Assoc.{lookup, insert, delete, lookup-insert, lookup-delete}
use psrpc.LocalBus.Transport.{
  SubList, Transport, new, lists, with_lists, placed, create, found_or_new, index_of, subscribe,
  unsubscribed, on_unsubscribe, live, written, dispatch_queue,
}
use psrpc.LocalBus.Dispatch.{queue_message_is_taken}

length-placed : (ss : List (Option ℕ)) (s : ℕ) → length (live (placed ss s)) ≡ length (live ss) + 1
unfolding placed live
length-placed [] s = refl
length-placed (none ∷ ss) s = omega arith
length-placed (some t ∷ ss) s = omega (arith, length-placed ss s)

length-closed :
    (ss : List (Option ℕ)) (i s : ℕ)
    → get_elem? ss i ≡ some (some s)
    → length (live ss) ≡ length (live (set ss i none)) + 1
unfolding live
length-closed [] i s h = cc
length-closed (none ∷ ss) zero s h = cc
length-closed (some t ∷ ss) zero s h = omega arith
length-closed (none ∷ ss) (suc i) s h = length-closed ss i s h
length-closed (some t ∷ ss) (suc i) s h = omega (arith, length-closed ss i s h)

first-live :
    (ss : List (Option ℕ))
    → 0 < length (live ss)
    → (j : ℕ) × (s : ℕ) × (get_elem? ss j ≡ some (some s))
unfolding live
first-live [] h = elim h [ ]
first-live (some s ∷ ss) h = (0, s, refl)
first-live (none ∷ ss) h = let (j, s, e) = first-live ss h in (suc j, s, e)

-- What a channel's list is like: it counts its subscriptions, and has one.
abbrev Counts : SubList → Type 0
Counts l = (l.sub_count ≡ length (live l.subs)) × (0 < l.sub_count)

abbrev CountsIn : Option SubList → Type 0
CountsIn none = Unit {0}
CountsIn (some l) = Counts l

abbrev Sound : Transport → Text → Bool → Type 0
Sound t c queue = CountsIn (lookup (lists t queue) c)

-- Subscriptions come, and each that is there is closed at most once.
pub data Step (t : Transport) : Transport → Type 0 where
  subscribes : (channel : Text) (sub : ℕ) (queue : Bool) → Step t (subscribe t channel sub queue)
  closes :
      (channel : Text) (queue : Bool) (l : SubList) (index sub : ℕ)
      → lookup (lists t queue) channel ≡ some l
      → get_elem? l.subs index ≡ some (some sub)
      → Step t (on_unsubscribe t channel queue index)

pub data Reach : Transport → Type 0 where
  start : Reach new
  after : {t u : Transport} → Reach t → Step t u → Reach u

create-Counts :
    (o : Option SubList) (queue : Bool) (s : ℕ)
    → CountsIn o
    → Counts (create (found_or_new o queue) s)
unfolding create found_or_new
create-Counts none queue s h = unfold placed live in (refl, omega arith)
create-Counts (some l) queue s h = (ground (arith, length-placed l.subs s), ground arith)

insert-CountsIn :
    (m : List (Text × SubList)) (ch : Text) (l : SubList) (c : Text)
    → Counts l
    → CountsIn (lookup m c)
    → CountsIn (lookup (insert m ch l) c)
insert-CountsIn m ch l c n h = ground (arith, lookup-insert m ch l c)

delete-CountsIn :
    (m : List (Text × SubList)) (ch c : Text)
    → CountsIn (lookup m c)
    → CountsIn (lookup (delete m ch) c)
delete-CountsIn m ch c h = ground (arith, lookup-delete m ch c)

-- A change of one of the two maps.
with_lists-Sound :
    (t : Transport) (q : Bool) (m : List (Text × SubList)) (c : Text) (queue : Bool)
    → CountsIn (lookup m c)
    → Sound t c queue
    → Sound (with_lists t q m) c queue
unfolding with_lists
with_lists-Sound t true m c true n h = n
with_lists-Sound t true m c false n h = h
with_lists-Sound t false m c true n h = h
with_lists-Sound t false m c false n h = n

closed-Counts :
    (l : SubList) (i s : ℕ)
    → Counts l
    → get_elem? l.subs i ≡ some (some s)
    → (l.sub_count - 1) ≡ length (live (set l.subs i none))
closed-Counts l i s h e = omega (arith, h.0, length-closed l.subs i s e)

AllSound : Transport → Type 0
AllSound t = (c : Text) (queue : Bool) → Sound t c queue

unsubscribed-Sound :
    (t : Transport) (ch : Text) (q : Bool) (l : SubList)
    → l.sub_count ≡ length (live l.subs)
    → AllSound t
    → AllSound (unsubscribed t ch q l)
unfolding unsubscribed AllSound
unsubscribed-Sound t ch q l n h c queue = elim (Bool-cases (nat_beq l.sub_count 0)) [
  | inl e ↦ rw e (
      with_lists-Sound t q (delete (lists t q) ch) c queue
        (delete-CountsIn (lists t q) ch c (h c q)) (h c queue))
  | inr e ↦ rw e (
      with_lists-Sound t q (insert (lists t q) ch l) c queue
        (insert-CountsIn (lists t q) ch l c (n, ground arith) (h c q)) (h c queue))
]

Step-Sound : {t u : Transport} → Step t u → AllSound t → AllSound u
unfolding subscribe on_unsubscribe AllSound
Step-Sound {t} (subscribes ch sub q) h = λ c queue.
    with_lists-Sound t q
      (insert (lists t q) ch (create (found_or_new (lookup (lists t q) ch) q) sub)) c queue
      (insert-CountsIn (lists t q) ch (create (found_or_new (lookup (lists t q) ch) q) sub) c
        (create-Counts (lookup (lists t q) ch) q sub (h ch q)) (h c q))
      (h c queue)
Step-Sound {t} (closes ch q l i s e f) h = rw e (
    unsubscribed-Sound t ch q (record l { subs = set l.subs i none; sub_count = l.sub_count - 1 })
      (closed-Counts l i s (subst CountsIn e (h ch q)) f) h)

new-Sound : (c : Text) (queue : Bool) → Sound new c queue
unfolding new lookup
new-Sound c true = tt
new-Sound c false = tt

Reach-Sound : {t : Transport} → Reach t → AllSound t
unfolding new lookup AllSound
Reach-Sound start = new-Sound
Reach-Sound (after r st) = Step-Sound st (Reach-Sound r)

-- However subscriptions come and go: a queue that has a list counts its subscriptions, and a message
-- to it is written to exactly one of them, the list unchanged but for the turn.
pub reached_queue_delivers :
    (t : Transport) (c : Text) (l : SubList)
    → Reach t
    → lookup t.queues c ≡ some l
    → (l.sub_count ≡ length (live l.subs))
      × ((r : ℕ) × (i : ℕ) × (get_elem? l.subs i ≡ some (some r))
          × (dispatch_queue l ≡ written r (record l { next = i + 1 })))
reached_queue_delivers t c l r e =
    let n = subst CountsIn e (unfold AllSound in Reach-Sound r c true) in
    let (j, s, f) = first-live l.subs (omega (arith, n.0, n.1)) in
    (n.0, queue_message_is_taken l j s f)

-- A new subscription stands in the slot that it will be closed by, and closing it leaves the others.
pub subscription_closes_itself :
    (ss : List (Option ℕ)) (s : ℕ)
    → (get_elem? (placed ss s) (index_of ss) ≡ some (some s))
      × (live (set (placed ss s) (index_of ss) none) ≡ live ss)
unfolding placed index_of live
subscription_closes_itself [] s = (refl, refl)
subscription_closes_itself (none ∷ ss) s = (refl, refl)
subscription_closes_itself (some t ∷ ss) s =
    let (e, f) = subscription_closes_itself ss s in (e, ap (◌∷◌ t) f)
