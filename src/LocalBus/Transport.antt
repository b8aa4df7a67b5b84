-- ===== src/LocalBus/Transport.antt =====
-- localbus.go: the lists of subscriptions, their slots, and publication.
use psrpc.Base.{
  ℕ, suc, zero, ◌+◌, ◌-◌, Bool, true, false, List, [], ◌∷◌, Option, none, some, Text, if◌then◌else◌,
  leb, nat_beq, length, get_elem?, set, text_comparable,
}
use psrpc.Base.Assoc.{lookup, insert, delete}

-- subList. A slot holds a subscription, known by a number, or nil.
pub record SubList : Type 0 where
  pub subs : List (Option ℕ)
  pub sub_count : ℕ
  pub queue : Bool
  pub next : ℕ

-- transport: its two maps.
pub record Transport : Type 0 where
  pub subs : List (Text × SubList)
  pub queues : List (Text × SubList)

unfoldable pub new : Transport
new = record { subs = []; queues = [] }

abbrev pub lists : Transport → Bool → List (Text × SubList)
lists t true = t.queues
lists t false = t.subs

unfoldable pub with_lists : Transport → Bool → List (Text × SubList) → Transport
with_lists t true m = record t { queues = m }
with_lists t false m = record t { subs = m }

-- The first nil slot takes the subscription, or else a new one at the end.
unfoldable pub placed : List (Option ℕ) → ℕ → List (Option ℕ)
placed [] sub = some sub ∷ []
placed (none ∷ ss) sub = some sub ∷ ss
placed (some s ∷ ss) sub = some s ∷ placed ss sub

-- The index of that slot, which the subscription is closed by.
unfoldable pub index_of : List (Option ℕ) → ℕ
index_of [] = 0
index_of (none ∷ ss) = 0
index_of (some s ∷ ss) = suc (index_of ss)

unfoldable pub create : SubList → ℕ → SubList
unfolding placed
create l sub = record l { subs = placed l.subs sub; sub_count = l.sub_count + 1 }

unfoldable pub found_or_new : Option SubList → Bool → SubList
found_or_new none queue = record { subs = []; sub_count = 0; queue = queue; next = 0 }
found_or_new (some l) queue = l

unfoldable pub subscribe : Transport → Text → ℕ → Bool → Transport
unfolding with_lists create found_or_new
subscribe t channel sub queue =
    let l = found_or_new (lookup (lists t queue) channel) queue in
    with_lists t queue (insert (lists t queue) channel (create l sub))

-- onUnsubscribe, of the list that the channel has.
unfoldable pub unsubscribed : Transport → Text → Bool → SubList → Transport
unfolding with_lists
unsubscribed t channel queue l =
    if nat_beq l.sub_count 0
    then with_lists t queue (delete (lists t queue) channel)
    else with_lists t queue (insert (lists t queue) channel l)

unfoldable pub closed_in : Transport → Text → Bool → ℕ → Option SubList → Transport
unfolding unsubscribed
closed_in t channel queue index none = t
closed_in t channel queue index (some l) =
    unsubscribed t channel queue
      (record l { subs = set l.subs index none; sub_count = l.sub_count - 1 })

unfoldable pub on_unsubscribe : Transport → Text → Bool → ℕ → Transport
unfolding closed_in
on_unsubscribe t channel queue index =
    closed_in t channel queue index (lookup (lists t queue) channel)

-- Where a queue's message went.
pub data Dispatched : Type 0 where
  panics : Dispatched
  nobody : SubList → Dispatched
  written : ℕ → SubList → Dispatched

-- The slot at `next`, which goes on to the rest of the loop if it is nil.
unfoldable pub at_slot : SubList → Option (Option ℕ) → (SubList → Dispatched) → Dispatched
at_slot l none rest = panics
at_slot l (some none) rest = rest l
at_slot l (some (some s)) rest = written s l

abbrev pub turn : SubList → ℕ
turn l = if leb (length l.subs) l.next then 0 else l.next

-- The round-robin loop, `k` more times.
unfoldable pub round_robin : ℕ → SubList → Dispatched
unfolding at_slot
round_robin zero l = nobody l
round_robin (suc k) l =
    at_slot (record l { next = turn l + 1 }) (get_elem? l.subs (turn l)) (round_robin k)

-- `for i := 0; i <= len(l.subs); i++`.
unfoldable pub dispatch_queue : SubList → Dispatched
unfolding round_robin
dispatch_queue l = round_robin (length l.subs + 1) l

-- The subscriptions that a message to all is written to.
unfoldable pub live : List (Option ℕ) → List ℕ
live [] = []
live (none ∷ ss) = live ss
live (some s ∷ ss) = s ∷ live ss
