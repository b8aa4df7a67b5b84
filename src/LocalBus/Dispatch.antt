-- ===== src/LocalBus/Dispatch.antt =====
-- One of a queue's subscriptions takes each message.
use psrpc.Base.{
  ℕ, suc, zero, ◌+◌, ◌-◌, ◌≤◌, ◌<◌, ◌≡◌, ◌≢◌, refl, sym, ◌∙◌, ap, List, [], ◌∷◌, Option, none, some,
  if◌then◌else◌, leb, length, get_elem?, arith,
}
use psrpc.LocalBus.Transport.{
  SubList, Dispatched, panics, nobody, written, at_slot, turn, round_robin, dispatch_queue,
}

-- How many slots are looked at up to `j`, from `next` on and round the list of `n` slots.
abbrev steps_to : ℕ → ℕ → ℕ → ℕ
steps_to n next j = if leb next j then j - next + 1 else (n - next) + j + 1

-- A subscription of the list took the message, and only `next` changed.
abbrev pub IsTaken : SubList → Dispatched → Type 0
IsTaken l panics = ⊥
IsTaken l (nobody m) = ⊥
IsTaken l (written s m) =
    (i : ℕ) × (get_elem? l.subs i ≡ some (some s)) × (m ≡ record l { next = i + 1 })

get_elem?-below :
    {A : Type 0} (xs : List A) (i : ℕ) → i < length xs → (x : A) × (get_elem? xs i ≡ some x)
get_elem?-below [] i h = elim h [ ]
get_elem?-below (x ∷ xs) zero h = (x, refl)
get_elem?-below (x ∷ xs) (suc i) h = get_elem?-below xs i (omega arith)

get_elem?-lt : {A : Type 0} (xs : List A) (i : ℕ) (x : A) → get_elem? xs i ≡ some x → i < length xs
get_elem?-lt [] i x h = cc
get_elem?-lt (y ∷ xs) zero x h = omega arith
get_elem?-lt (y ∷ xs) (suc i) x h = omega (arith, get_elem?-lt xs i x h)

clash : {x : ℕ} → some none ≡ some (some x) → ⊥
clash p = cc

IsTaken-next :
    (l : SubList) (n : ℕ) (d : Dispatched) → IsTaken (record l { next = n }) d → IsTaken l d
IsTaken-next l n panics h = h
IsTaken-next l n (nobody m) h = h
IsTaken-next l n (written s m) h = h

-- A nil slot brings a live one a step nearer.
steps_to-next :
    (n next j k : ℕ)
    → j < n
    → (if leb n next then 0 else next) ≢ j
    → steps_to n next j ≤ suc k
    → steps_to n ((if leb n next then 0 else next) + 1) j ≤ k
steps_to-next n next j k low ne b = ground arith

round_robin-IsTaken :
    (k : ℕ) (l : SubList) (j s : ℕ)
    → get_elem? l.subs j ≡ some (some s)
    → steps_to (length l.subs) l.next j ≤ k
    → IsTaken l (round_robin k l)
unfolding round_robin at_slot
round_robin-IsTaken zero l j s h b = ground arith
round_robin-IsTaken (suc k) l j s h b =
    let low = get_elem?-lt l.subs j (some s) h in
    let (x, e) = get_elem?-below l.subs (turn l) (ground arith) in
    let l' : SubList = record l { next = turn l + 1 } in
    rw e (
      go x e (λ ne.
        IsTaken-next l (turn l + 1) (round_robin k l')
          (round_robin-IsTaken k l' j s h (steps_to-next (length l.subs) l.next j k low ne b))))
  where
    go :
        (x : Option ℕ)
        → get_elem? l.subs (turn l) ≡ some x
        → (turn l ≢ j → IsTaken l (round_robin k (record l { next = turn l + 1 })))
        → IsTaken l (at_slot (record l { next = turn l + 1 }) (some x) (round_robin k))
    go (some t) e rec = (turn l, e, refl)
    go none e rec = rec (λ same. clash (sym e ∙ ap (get_elem? l.subs) same ∙ h))

-- A message to a queue that has a subscription is written to exactly one, whatever slots are nil and
-- wherever the turn stands: the loop's passes are enough, no index is out of range, and the list is
-- unchanged but for the turn, which goes on from that subscription.
pub queue_message_is_taken :
    (l : SubList) (j s : ℕ)
    → get_elem? l.subs j ≡ some (some s)
    → (r : ℕ) × (i : ℕ) × (get_elem? l.subs i ≡ some (some r))
      × (dispatch_queue l ≡ written r (record l { next = i + 1 }))
unfolding dispatch_queue
queue_message_is_taken l j s h = go (round_robin (length l.subs + 1) l) (
    round_robin-IsTaken (length l.subs + 1) l j s h
      (let low = get_elem?-lt l.subs j (some s) h in ground arith))
  where
    go :
        (d : Dispatched)
        → IsTaken l d
        → (r : ℕ) × (i : ℕ) × (get_elem? l.subs i ≡ some (some r))
          × (d ≡ written r (record l { next = i + 1 }))
    go panics h = elim h [ ]
    go (nobody m) h = elim h [ ]
    go (written r m) (i, e, f) = (r, i, e, ap (written r) f)
