-- ===== src/Redis/Lists.antt =====
-- redisbus.go: redisSubList hands a message to every subscription, or to the next one in turn.
use native.Mathlib.Nat.{add-mod_left}
use psrpc.Base.{
  remove_first, leb→le, ℕ, suc, zero, ◌+◌, ◌%◌, ◌<◌, ◌≡◌, refl, sym, ◌∙◌, ap, subst, length-append,
  inl, inr, Bool, true, false, List, [], ◌∷◌, Option, none, some, Text, if◌then◌else◌, leb, length,
  get_elem?, Bool-cases, Option-cases, arith, text_comparable,
}
use psrpc.Base.Assoc.{lookup, lookup-insert, lookup-delete}
use psrpc.Redis.Transport.{
  SubList, Transport, new, appended, lists, subscribe, unsubscribe, unsubscribe_from, without, plan,
  settle, Step, subscribes, unsubscribes, plans, settles, Reach, start, after,
}

-- The subscription that the next message goes to, and the list after that.
written : SubList → ℕ → Option ℕ → Option (ℕ × SubList)
written l next none = none
written l next (some s) = some (s, record l { next = next + 1 })

abbrev pub turn : SubList → ℕ
turn l = if leb (length l.subs) l.next then 0 else l.next

-- dispatchQueue; `none` is a panic, an index out of range.
unfoldable pub dispatch_queue : SubList → Option (ℕ × SubList)
unfolding written
dispatch_queue l = written l (turn l) (get_elem? l.subs (turn l))

-- The subscriptions that take so many messages, one after another.
unfoldable pub serve : ℕ → SubList → Option (List ℕ)
unfolding dispatch_queue
serve zero l = some []
serve (suc k) l = elim (dispatch_queue l) [
  | none ↦ none
  | some (s, l') ↦ elim (serve k l') [ none ↦ none | some ss ↦ some (s ∷ ss) ]
]

get_elem?-some :
    {A : Type 0} (xs : List A) (i : ℕ) → i < length xs → (x : A) × (get_elem? xs i ≡ some x)
get_elem?-some [] i h = elim h [ ]
get_elem?-some (x ∷ xs) zero h = (x, refl)
get_elem?-some (x ∷ xs) (suc i) h = get_elem?-some xs i (omega arith)

turn-lt : (l : SubList) → 0 < length l.subs → turn l < length l.subs
turn-lt l h = ground arith

dispatch_queue_lem :
    (l : SubList)
    → 0 < length l.subs
    → (s : ℕ) × (get_elem? l.subs (turn l) ≡ some s)
      × (dispatch_queue l ≡ some (s, record l { next = turn l + 1 }))
unfolding dispatch_queue
dispatch_queue_lem l h = let (s, e) = get_elem?-some l.subs (turn l) (turn-lt l h) in (s, e, rw e)

-- One place further on, round the list.
turn_next : (n t j : ℕ) → t < n → ((if leb n (t + 1) then 0 else t + 1) + j) % n ≡ (t + suc j) % n
turn_next n t j h = elim (Bool-cases (leb n (t + 1))) [
  | inl e ↦ rw e (
      let k : t + suc j ≡ n + j = omega (arith, leb→le n (t + 1) e) in
      let z : 0 + j ≡ j = omega arith in rw (k, z) (sym (add-mod_left n j)))
  | inr e ↦ rw e (ap (λ x. x % n) (omega arith))
]

turn_mod : (n t : ℕ) → t < n → (t + 0) % n ≡ t
turn_mod n t h = grind arith

-- Where each of the messages goes.
abbrev Placed : ℕ → SubList → List ℕ → Type 0
Placed k l ss = (i : ℕ) → i < k → get_elem? ss i ≡ get_elem? l.subs ((turn l + i) % length l.subs)

serve-Placed :
    (k : ℕ) (l : SubList)
    → 0 < length l.subs
    → (ss : List ℕ) × (serve k l ≡ some ss) × Placed k l ss
unfolding serve
serve-Placed zero l h = ([], refl, λ i low. elim low [ ])
serve-Placed (suc k) l h =
    let (s, e, d) = dispatch_queue_lem l h in
    let (ss, f, g) = serve-Placed k (record l { next = turn l + 1 }) h in
    (s ∷ ss, rw (d, serve) (rw f), at s ss e g)
  where
    at :
        (s : ℕ) (ss : List ℕ)
        → get_elem? l.subs (turn l) ≡ some s
        → Placed k (record l { next = turn l + 1 }) ss
        → Placed (suc k) l (s ∷ ss)
    at s ss e g zero low = rw (turn_mod (length l.subs) (turn l) (turn-lt l h)) (sym e)
    at s ss e g (suc i) low =
        g i (omega arith)
        ∙ ap (get_elem? l.subs) (turn_next (length l.subs) (turn l) i (turn-lt l h))

-- Messages go round: of any number of messages that a list with subscriptions takes, the one at
-- place `i` goes to the subscription `i` places on, counted round the list. No index is out of range.
pub messages_go_round :
    (k : ℕ) (l : SubList) (i : ℕ)
    → 0 < length l.subs
    → i < k
    → (ss : List ℕ) × (serve k l ≡ some ss)
      × (get_elem? ss i ≡ get_elem? l.subs ((turn l + i) % length l.subs))
messages_go_round k l i h low = let (ss, e, g) = serve-Placed k l h in (ss, e, g i low)

-- No list in the maps is empty.
abbrev Takes : Option SubList → Type 0
Takes none = Unit {0}
Takes (some l) = 0 < length l.subs

abbrev FullAt : Transport → Text → Bool → Type 0
FullAt t c queue = Takes (lookup (lists t queue) c)

subscribe-FullAt :
    (t : Transport) (ch : Text) (sub : ℕ) (q : Bool) (c : Text) (queue : Bool)
    → FullAt t c queue
    → FullAt (subscribe t ch sub q) c queue
unfolding subscribe
subscribe-FullAt t ch sub true c true h = elim (Option-cases (lookup t.queues ch)) [
  | inl e ↦ rw e (ground (arith, lookup-insert t.queues ch (appended none sub) c))
  | inr (l, e) ↦ rw e (
      ground (
        arith,
        lookup-insert t.queues ch (appended (some l) sub) c,
        length-append l.subs (sub ∷ []),
      ))
]
subscribe-FullAt t ch sub false c false h = elim (Option-cases (lookup t.subs ch)) [
  | inl e ↦ rw e (ground (arith, lookup-insert t.subs ch (appended none sub) c))
  | inr (l, e) ↦ rw e (
      ground
        (arith, lookup-insert t.subs ch (appended (some l) sub) c, length-append l.subs (sub ∷ [])))
]
subscribe-FullAt t ch sub true c false h = ground arith
subscribe-FullAt t ch sub false c true h = ground arith

without-FullAt :
    (t : Transport) (ch : Text) (q : Bool) (l : SubList) (left : Option (List ℕ)) (c : Text)
    (queue : Bool)
    → FullAt t c queue
    → FullAt (without t ch q l left) c queue
unfolding without
without-FullAt t ch q l none c queue h = h
without-FullAt t ch true l (some []) c true h = ground (arith, lookup-delete t.queues ch c)
without-FullAt t ch false l (some []) c false h = ground (arith, lookup-delete t.subs ch c)
without-FullAt t ch true l (some []) c false h = h
without-FullAt t ch false l (some []) c true h = h
without-FullAt t ch true l (some (s ∷ ss)) c true h =
    ground (arith, lookup-insert t.queues ch (record l { subs = s ∷ ss }) c)
without-FullAt t ch false l (some (s ∷ ss)) c false h =
    ground (arith, lookup-insert t.subs ch (record l { subs = s ∷ ss }) c)
without-FullAt t ch true l (some (s ∷ ss)) c false h = h
without-FullAt t ch false l (some (s ∷ ss)) c true h = h

Step-FullAt :
    {t u : Transport} (c : Text) (queue : Bool) → Step t u → FullAt t c queue → FullAt u c queue
unfolding unsubscribe unsubscribe_from plan settle
Step-FullAt {t} c queue (subscribes ch sub q) h = subscribe-FullAt t ch sub q c queue h
Step-FullAt {t} c queue (unsubscribes ch q sub) h = elim (Option-cases (lookup (lists t q) ch)) [
  | inl e ↦ rw e h
  | inr (l, e) ↦ rw e (without-FullAt t ch q l (remove_first l.subs sub) c queue h)
]
Step-FullAt {t} c true (plans idle) h = h
Step-FullAt {t} c false (plans idle) h = h
Step-FullAt {t} c true (settles s u a b e) h = ground arith
Step-FullAt {t} c false (settles s u a b e) h = ground arith

Reach-FullAt : {t : Transport} (c : Text) (queue : Bool) → Reach t → FullAt t c queue
unfolding new lookup
Reach-FullAt c true start = tt
Reach-FullAt c false start = tt
Reach-FullAt c queue (after r st) = Step-FullAt c queue st (Reach-FullAt c queue r)

-- In every state that the transport reaches, a channel's list can take a message: it has a
-- subscription, so the index that dispatchQueue reads is in range.
pub reached_list_serves :
    (t : Transport) (c : Text) (queue : Bool) (l : SubList)
    → Reach t
    → lookup (lists t queue) c ≡ some l
    → (s : ℕ) × (dispatch_queue l ≡ some (s, record l { next = turn l + 1 }))
reached_list_serves t c queue l r e =
    let (s, h, d) = dispatch_queue_lem l (subst (λ o. Takes o) e (Reach-FullAt c queue r)) in (s, d)
