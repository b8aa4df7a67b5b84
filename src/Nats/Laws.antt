-- ===== src/Nats/Laws.antt =====
-- What each operation on a router and on the map of routers does to whom a message reaches.
use psrpc.Base.{
  ℕ, ◌≡◌, refl, sym, ◌∙◌, ap, inl, inr, Bool, true, false, List, [], ◌∷◌, ◌++◌, Option, none, some,
  Text, if◌then◌else◌, ltb, length, list_beq, text_eq_iff, remove_first, Bool-cases, arith,
  text_comparable,
}
use psrpc.Base.Assoc.{lookup, insert, delete, lookup-insert, lookup-delete}
use psrpc.Nats.Router.{
  Router, Transport, or_nil, open_route, close_last, close_with, close_route, write, after_close,
  routes_of, deliver,
}
use psrpc.Nats.Table.{or_same}

pub write-open_route :
    (r : Router) (local : Text) (s : ℕ) (b : Text)
    → write (open_route r local s) b
      ≡ (if list_beq local b then write r local ++ s ∷ [] else write r b)
unfolding write open_route
write-open_route r local s b = ground (
  arith,
  lookup-insert r.routes local (or_nil (lookup r.routes local) ++ s ∷ []) b,
  text_eq_iff local b,
)

pub deliver-insert :
    (t : Transport) (server : Text) (r : Router) (a b : Text)
    → deliver (record t { routers = insert t.routers server r }) a b
      ≡ (if list_beq server a then write r b else deliver t a b)
unfolding deliver routes_of
deliver-insert t server r a b =
    ground (arith, lookup-insert t.routers server r a, text_eq_iff server a)

pub deliver-delete :
    (t : Transport) (server a b : Text)
    → deliver (record t { routers = delete t.routers server }) a b
      ≡ (if list_beq server a then [] else deliver t a b)
unfolding deliver routes_of
deliver-delete t server a b = ground (arith, lookup-delete t.routers server a, text_eq_iff server a)

-- What a message finds after a close, by whether the router is gone.
unfoldable pub after_route : Router × Bool → Text → List ℕ
after_route (r, true) b = []
after_route (r, false) b = write r b

last-removed :
    (xs : List ℕ) (s : ℕ) (left : List ℕ)
    → ltb 1 (length xs) ≡ false
    → remove_first xs s ≡ some left
    → left ≡ []
unfolding remove_first
last-removed [] s left h e = cc
last-removed (x ∷ []) s left h e = ground arith
last-removed (x ∷ y ∷ xs) s left h e = ground arith

close_last-route :
    (r : Router) (local b : Text) (m : List (Text × List ℕ))
    → delete r.routes local ≡ m
    → after_route (close_last r m) b ≡ (if list_beq local b then [] else write r b)
unfolding close_last after_route write
close_last-route r local b [] e =
    ground (arith, ap (λ m. lookup m b) e, lookup-delete r.routes local b, lookup_nil b)
  where
    lookup_nil : (b : Text) → lookup {K = Text} {V = List ℕ} [] b ≡ none
    lookup_nil b = unfold lookup in refl
close_last-route r local b (c ∷ m) e =
    ground (arith, ap (λ m. lookup m b) e, lookup-delete r.routes local b)

write_alike : (r : Router) (local b : Text) → list_beq local b ≡ true → write r local ≡ write r b
write_alike r local b h = ap (write r) ((text_eq_iff local b).0 h)

close_with-after :
    (r : Router) (local : Text) (s : ℕ) (b : Text) (xs : List ℕ) (o : Option (List ℕ))
    → write r local ≡ xs
    → remove_first xs s ≡ o
    → after_route (close_with r local (length xs) o) b
      ≡ (if list_beq local b then or_same xs o else write r b)
unfolding close_with after_route or_same
close_with-after r local s b xs none w e = elim (Bool-cases (list_beq local b)) [
  | inl h ↦ rw h (sym (write_alike r local b h) ∙ w)
  | inr h ↦ rw h refl
]
close_with-after r local s b xs (some left) w e = elim (Bool-cases (ltb 1 (length xs))) [
  | inl many ↦ rw many (unfold write in ground (arith, lookup-insert r.routes local left b))
  | inr few ↦
      rw (few, last-removed xs s left few e)
        (close_last-route r local b (delete r.routes local) refl)
]

pub close_route-after :
    (r : Router) (local : Text) (s : ℕ) (b : Text)
    → after_route (close_route r local s) b ≡ (
        if list_beq local b
        then or_same (write r local) (remove_first (write r local) s)
        else write r b)
close_route-after r local s b =
    unfold close_route write in
    close_with-after r local s b (or_nil (lookup r.routes local))
      (remove_first (or_nil (lookup r.routes local)) s) refl refl

pub deliver-after_close :
    (t : Transport) (server : Text) (x : Router × Bool) (a b : Text)
    → deliver (after_close t server x) a b
      ≡ (if list_beq server a then after_route x b else deliver t a b)
unfolding after_close after_route
deliver-after_close t server (r, true) a b = deliver-delete t server a b
deliver-after_close t server (r, false) a b = deliver-insert t server r a b

pub write-deliver :
    (t : Transport) (server : Text) (r : Router)
    → lookup t.routers server ≡ some r
    → (b : Text) → write r b ≡ deliver t server b
unfolding deliver routes_of
write-deliver t server r e b = rw e refl
