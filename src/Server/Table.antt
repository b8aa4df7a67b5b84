-- ===== src/Server/Table.antt =====
-- The handlers that run, as a list: who has a key, and how many are not counted off.
use psrpc.Base.{
  ℕ, suc, ◌≡◌, refl, ◌∙◌, Bool, true, false, List, [], ◌∷◌, ◌++◌, Option, none, some, Text,
  if◌then◌else◌, list_beq, arith, text_comparable, text_eq_iff,
}

-- A handler that was registered and whose key is still in the map; `done` says that it was counted
-- off.
pub record Running : Type 0 where
  pub key : Text
  pub handler : ℕ
  pub done : Bool

unfoldable pub handler_of : List Running → Text → Option ℕ
handler_of [] k = none
handler_of (r ∷ rs) k = if list_beq r.key k then some r.handler else handler_of rs k

-- How many were not counted off.
unfoldable pub unfinished : List Running → ℕ
unfinished [] = 0
unfinished (r ∷ rs) = if r.done then unfinished rs else suc (unfinished rs)

unfoldable pub Distinct : List Running → Type 0
Distinct [] = Unit
Distinct (r ∷ rs) = (handler_of rs r.key ≡ none) × Distinct rs

-- A handler that is only counted off keeps its place.
pub handler_of-mark :
    (front : List Running) (r : Running) (b : Bool) (back : List Running) (k : Text)
    → handler_of (front ++ record r { done = b } ∷ back) k ≡ handler_of (front ++ r ∷ back) k
unfolding handler_of
handler_of-mark [] r b back k = refl
handler_of-mark (f ∷ front) r b back k = ground (arith, handler_of-mark front r b back k)

pub Distinct-mark :
    (front : List Running) (r : Running) (b : Bool) (back : List Running)
    → Distinct (front ++ r ∷ back)
    → Distinct (front ++ record r { done = b } ∷ back)
unfolding Distinct
Distinct-mark [] r b back d = d
Distinct-mark (f ∷ front) r b back (n, d) =
    (handler_of-mark front r b back f.key ∙ n, Distinct-mark front r b back d)

pub unfinished-mark :
    (front : List Running) (r : Running) (back : List Running)
    → unfinished (front ++ record r { done = false } ∷ back)
      ≡ suc (unfinished (front ++ record r { done = true } ∷ back))
unfolding unfinished
unfinished-mark [] r back = refl
unfinished-mark (f ∷ front) r back = ground (arith, unfinished-mark front r back)

pub unfinished-remove :
    (front : List Running) (r : Running) (back : List Running)
    → r.done ≡ true
    → unfinished (front ++ r ∷ back) ≡ unfinished (front ++ back)
unfolding unfinished
unfinished-remove [] r back e = rw e refl
unfinished-remove (f ∷ front) r back e = ground (arith, unfinished-remove front r back e)

-- One that is removed was the only one with its key.
handler_of-middle :
    (front : List Running) (r : Running) (back : List Running) (k : Text)
    → handler_of (front ++ r ∷ back) k ≡ none
    → (list_beq r.key k ≡ false) × (handler_of (front ++ back) k ≡ none)
unfolding handler_of
handler_of-middle [] r back k h = ground (arith)
handler_of-middle (f ∷ front) r back k h = ground (arith, handler_of-middle front r back k)

pub handler_of-remove :
    (front : List Running) (r : Running) (back : List Running) (k : Text)
    → Distinct (front ++ r ∷ back)
    → handler_of (front ++ back) k
      ≡ (if list_beq r.key k then none else handler_of (front ++ r ∷ back) k)
unfolding handler_of Distinct
handler_of-remove [] r back k (n, d) = ground (arith, text_eq_iff r.key k)
handler_of-remove (f ∷ front) r back k (n, d) = ground (
  arith,
  handler_of-middle front r back f.key n,
  handler_of-remove front r back k d,
  text_eq_iff r.key k,
  text_eq_iff f.key k,
  text_eq_iff r.key f.key,
)

pub Distinct-remove :
    (front : List Running) (r : Running) (back : List Running)
    → Distinct (front ++ r ∷ back)
    → Distinct (front ++ back)
unfolding Distinct
Distinct-remove [] r back (n, d) = d
Distinct-remove (f ∷ front) r back (n, d) =
    ((handler_of-middle front r back f.key n).1, Distinct-remove front r back d)
