-- ===== src/Client/Routed.antt =====
-- What a client's loop has given to each call, after so many messages.
use psrpc.Base.{
  some-injective, ℕ, ◌+◌, ◌≤◌, ◌≡◌, refl, sym, ap, subst, ◌∙◌, true, false, List, [], ◌∷◌, ◌++◌,
  Option, none, some, Text, if◌then◌else◌, ltb, length, length-append, append_assoc, append-nil,
  list_beq, text_eq_iff, arith, text_comparable, inl, inr, Bool-cases,
}
use psrpc.Base.Assoc.{lookup, insert, lookup-insert}
use psrpc.Client.Routing.{Channels, sent, route}

abbrev pub with_more : {A : Type 0} → Option (List A) → List A → Option (List A)
with_more none xs = none
with_more (some buffered) xs = some (buffered ++ xs)

module _ {A : Type 0} (size : Text → ℕ) (id_of : A → Text) where
  -- The messages for one ID.
  unfoldable pub mine : Text → List A → List A
  mine k [] = []
  mine k (a ∷ rest) = if list_beq (id_of a) k then a ∷ mine k rest else mine k rest

  abbrev pub go_on : Option (Channels A) → (Channels A → Option (Channels A)) → Option (Channels A)
  go_on none next = none
  go_on (some m) next = next m

  -- The loop over messages of one kind, where nothing is read meanwhile.
  unfoldable pub routes : Channels A → List A → Option (Channels A)
  unfolding route
  routes m [] = some m
  routes m (a ∷ rest) = go_on (route size id_of m a) (λ n. routes n rest)

  -- Every channel has room for its messages.
  abbrev pub Fits : Channels A → List A → Type 0
  Fits m rest =
      (k : Text) (buffered : List A)
      → lookup m k ≡ some buffered
      → length buffered + length (mine k rest) ≤ size k

  -- Where the messages lead.
  pub data Gives (m : Channels A) (rest : List A) : Option (Channels A) → Type 0 where
    gives :
        {n : Channels A}
        → ((k : Text) → lookup n k ≡ with_more (lookup m k) (mine k rest))
        → Gives m rest (some n)

  with_more-nil : (o : Option (List A)) → o ≡ with_more o []
  with_more-nil none = refl
  with_more-nil (some xs) = ap some (sym (append-nil xs))

  Gives-none :
      {m : Channels A} {a : A} {rest : List A} {o : Option (Channels A)}
      → lookup m (id_of a) ≡ none
      → Gives m rest o
      → Gives m (a ∷ rest) o
  unfolding mine
  Gives-none {m} {a} {rest} e (gives g) = gives (λ k. g k ∙ same k)
    where
      same :
          (k : Text)
          → with_more (lookup m k) (mine k rest)
            ≡ with_more (lookup m k) (if list_beq (id_of a) k then a ∷ mine k rest else mine k rest)
      same k = elim (Bool-cases (list_beq (id_of a) k)) [
        | inl y ↦ rw (sym (ap (lookup m) ((text_eq_iff (id_of a) k).0 y)) ∙ e) refl
        | inr y ↦ rw y refl
      ]

  Gives-some :
      {m : Channels A} {a : A} {rest : List A} {o : Option (Channels A)} {buffered : List A}
      → lookup m (id_of a) ≡ some buffered
      → Gives (insert m (id_of a) (buffered ++ a ∷ [])) rest o
      → Gives m (a ∷ rest) o
  unfolding mine
  Gives-some {m} {a} {rest} {buffered} e (gives g) = gives (λ k. g k ∙ same k)
    where
      same :
          (k : Text)
          → with_more (lookup (insert m (id_of a) (buffered ++ a ∷ [])) k) (mine k rest)
            ≡ with_more (lookup m k) (if list_beq (id_of a) k then a ∷ mine k rest else mine k rest)
      same k = elim (Bool-cases (list_beq (id_of a) k)) [
        | inl y ↦
            rw
              (
                lookup-insert m (id_of a) (buffered ++ a ∷ []) k,
                y,
                sym (ap (lookup m) ((text_eq_iff (id_of a) k).0 y)) ∙ e,
              )
              (ap some (append_assoc buffered (a ∷ []) (mine k rest)))
        | inr y ↦ rw (lookup-insert m (id_of a) (buffered ++ a ∷ []) k, y) refl
      ]

  Fits-none : (m : Channels A) (a : A) (rest : List A) → Fits m (a ∷ rest) → Fits m rest
  unfolding mine
  Fits-none m a rest f k buffered e = ground (arith, f k buffered e)

  Fits-some :
      (m : Channels A) (a : A) (rest : List A) (buffered : List A)
      → lookup m (id_of a) ≡ some buffered
      → Fits m (a ∷ rest)
      → Fits (insert m (id_of a) (buffered ++ a ∷ [])) rest
  unfolding mine
  Fits-some m a rest buffered e f k c h =
      let found = sym (lookup-insert m (id_of a) (buffered ++ a ∷ []) k) ∙ h in
      elim (Bool-cases (list_beq (id_of a) k)) [
        | inl y ↦ ground (
          arith,
          f k buffered (subst (λ j. lookup m j ≡ some buffered) ((text_eq_iff (id_of a) k).0 y) e),
          y,
          ap length (some-injective (sym (if-true y) ∙ found)),
          length-append buffered (a ∷ []),
        )
        | inr y ↦ ground (arith, f k c (sym (if-false y) ∙ found), y)
      ]
    where
      if-true :
          list_beq (id_of a) k ≡ true
          → (if list_beq (id_of a) k then some (buffered ++ a ∷ []) else lookup m k)
            ≡ some (buffered ++ a ∷ [])
      if-true y = rw y refl

      if-false :
          list_beq (id_of a) k ≡ false
          → (if list_beq (id_of a) k then some (buffered ++ a ∷ []) else lookup m k) ≡ lookup m k
      if-false y = rw y refl

  room :
      (m : Channels A) (a : A) (rest : List A) (buffered : List A)
      → lookup m (id_of a) ≡ some buffered
      → Fits m (a ∷ rest)
      → ltb (length buffered) (size (id_of a)) ≡ true
  unfolding mine
  room m a rest buffered e f =
      ground (arith, f (id_of a) buffered e, text_eq_iff (id_of a) (id_of a))

  step-Gives :
      (m : Channels A) (a : A) (rest : List A) (o : Option (List A))
      → lookup m (id_of a) ≡ o
      → Fits m (a ∷ rest)
      → ((n : Channels A) → Fits n rest → Gives n rest (routes n rest))
      → Gives m (a ∷ rest) (go_on (sent size id_of m a o) (λ n. routes n rest))
  unfolding sent
  step-Gives m a rest none e f next = Gives-none e (next m (Fits-none m a rest f))
  step-Gives m a rest (some buffered) e f next = rw (room m a rest buffered e f) (
      Gives-some e
        (next (insert m (id_of a) (buffered ++ a ∷ [])) (Fits-some m a rest buffered e f)))

  -- A client's loop that takes messages of one kind, while nobody reads, does not block where every
  -- channel has room for those that are for it. It has then given each waiting call exactly the
  -- messages with the ID of its request, in the order of their arrival, and no other.
  pub loop_routes_messages :
      (m : Channels A) (rest : List A) → Fits m rest → Gives m rest (routes m rest)
  unfolding routes mine route
  loop_routes_messages m [] f = gives (λ k. with_more-nil (lookup m k))
  loop_routes_messages m (a ∷ rest) f =
      step-Gives m a rest (lookup m (id_of a)) refl f (λ n h. loop_routes_messages n rest h)
