-- ===== src/Nats/Table.antt =====
-- The plain table of subscriptions that the routers are compared with: what is in it, and what each
-- step does to whom a message is for.
use psrpc.Base.{
  ℕ, ◌≡◌, refl, inl, inr, Bool, true, false, ◌&&◌, List, [], ◌∷◌, ◌++◌, Option, none, some, Text,
  if◌then◌else◌, nat_beq, list_beq, text_eq_iff, remove_first, Bool-cases, arith, text_comparable,
}

-- The specification: who subscribes to which local channel of which NATS channel, in order.
pub record Entry : Type 0 where
  pub server : Text
  pub local : Text
  pub sub : ℕ

abbrev pub on : Entry → Text → Text → Bool
on e server local = list_beq e.server server && list_beq e.local local

-- Whom a message is for.
unfoldable pub matching : List Entry → Text → Text → List ℕ
matching [] server local = []
matching (e ∷ es) server local =
    if on e server local then e.sub ∷ matching es server local else matching es server local

-- The first such entry goes.
unfoldable pub removed : List Entry → Text → Text → ℕ → List Entry
removed [] server local s = []
removed (e ∷ es) server local s =
    if on e server local && nat_beq e.sub s then es else e ∷ removed es server local s

-- All entries of a NATS channel go.
unfoldable pub dropped : List Entry → Text → List Entry
dropped [] server = []
dropped (e ∷ es) server =
    if list_beq e.server server then dropped es server else e ∷ dropped es server

pub matching-append :
    (es : List Entry) (e : Entry) (server local : Text)
    → matching (es ++ e ∷ []) server local
      ≡ matching es server local ++ (if on e server local then e.sub ∷ [] else [])
unfolding matching
matching-append [] e server local = refl
matching-append (d ∷ es) e server local = ground (arith, matching-append es e server local)

unfoldable pub or_same : List ℕ → Option (List ℕ) → List ℕ
or_same xs none = xs
or_same xs (some ys) = ys

or_same-cons :
    (x : ℕ) (xs : List ℕ) (s : ℕ)
    → or_same (x ∷ xs) (remove_first (x ∷ xs) s)
      ≡ (if nat_beq x s then xs else x ∷ or_same xs (remove_first xs s))
unfolding or_same remove_first
or_same-cons x xs s = ground (arith)

-- Entries and names that agree in no other way.
on-alike :
    (e : Entry) (server local a b : Text)
    → (list_beq server a && list_beq local b) ≡ true
    → on e a b ≡ on e server local
on-alike e server local a b h = ground (
  arith,
  text_eq_iff server a,
  text_eq_iff local b,
  text_eq_iff e.server a,
  text_eq_iff e.server server,
  text_eq_iff e.local b,
  text_eq_iff e.local local,
)

on-apart :
    (e : Entry) (server local a b : Text)
    → (list_beq server a && list_beq local b) ≡ false
    → on e server local ≡ true
    → on e a b ≡ false
on-apart e server local a b h k = ground (
  arith,
  text_eq_iff server a,
  text_eq_iff local b,
  text_eq_iff e.server a,
  text_eq_iff e.server server,
  text_eq_iff e.local b,
  text_eq_iff e.local local,
)

pub matching-removed :
    (es : List Entry) (server local : Text) (s : ℕ) (a b : Text)
    → matching (removed es server local s) a b ≡ (
        if list_beq server a && list_beq local b
        then or_same (matching es a b) (remove_first (matching es a b) s)
        else matching es a b)
unfolding matching removed or_same
matching-removed [] server local s a b = unfold remove_first in ground arith
matching-removed (e ∷ es) server local s a b =
    elim (Bool-cases (list_beq server a && list_beq local b)) [
      | inl h ↦ ground (
        arith,
        on-alike e server local a b h,
        matching-removed es server local s a b,
        or_same-cons e.sub (matching es a b) s,
      )
      | inr h ↦ elim (Bool-cases (on e server local)) [
        | inl k ↦
            ground (arith, on-apart e server local a b h k, matching-removed es server local s a b)
        | inr k ↦ ground (arith, matching-removed es server local s a b)
      ]
    ]

pub matching-dropped :
    (es : List Entry) (server a b : Text)
    → matching (dropped es server) a b ≡ (if list_beq server a then [] else matching es a b)
unfolding matching dropped
matching-dropped [] server a b = ground arith
matching-dropped (e ∷ es) server a b = ground (
  arith,
  matching-dropped es server a b,
  text_eq_iff e.server server,
  text_eq_iff e.server a,
  text_eq_iff server a,
)
