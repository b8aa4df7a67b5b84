-- ===== src/Nats/Refinement.antt =====
-- The routers implement a plain table of subscriptions: the steps of both, run together.
use psrpc.Base.{
  some-injective, ℕ, ◌≡◌, refl, sym, ◌∙◌, ap, subst, inl, inr, Bool, true, false, ◌&&◌, List, [],
  ◌∷◌, ◌++◌, Option, none, some, Text, if◌then◌else◌, list_beq, text_eq_iff, remove_first,
  Bool-cases, append-nil, arith, text_comparable,
}
use psrpc.Base.Assoc.{lookup, insert}
use psrpc.Nats.Router.{
  Router, Transport, new, open_route, close_route, write, joined, begun, mismatch, Opened, join,
  subscribe_router, subscribed, after_close, same_kind, unsubscribe_in, unsubscribe_router,
  routes_of, deliver,
}
use psrpc.Nats.Table.{
  Entry, matching, removed, dropped, or_same, matching-append, matching-removed, matching-dropped,
}
use psrpc.Nats.Laws.{
  write-open_route, deliver-insert, deliver-delete, close_route-after, deliver-after_close,
  write-deliver,
}

-- The transport with the new subscription, on a router that was there or a new one; a subscription
-- of the wrong kind is refused and changes nothing.
abbrev pub with_subscription : Opened → Option Transport
with_subscription (joined t) = some t
with_subscription (begun t) = some t
with_subscription mismatch = none

-- The transport's steps, each with what it does to the table: subscriptions are made and closed at
-- any time, also while NATS is being asked for a new router's subscription, and NATS may refuse.
pub data Runs : Transport → List Entry → Type 0 where
  start : Runs new []
  subscribes :
      {t u : Transport} {es : List Entry} (server local : Text) (s : ℕ) (queue : Bool)
      → Runs t es
      → with_subscription (subscribe_router t server local s queue) ≡ some u
      → Runs u (es ++ record { server = server; local = local; sub = s } ∷ [])
  accepted :
      {t : Transport} {es : List Entry} (server : Text) (r : Router)
      → Runs t es
      → lookup t.routers server ≡ some r
      → Runs (subscribed t server r true) es
  refused :
      {t : Transport} {es : List Entry} (server : Text) (r : Router)
      → Runs t es
      → lookup t.routers server ≡ some r
      → Runs (subscribed t server r false) (dropped es server)
  closes :
      {t : Transport} {es : List Entry} (server local : Text) (s : ℕ)
      → Runs t es
      → Runs (unsubscribe_router t server local s) (removed es server local s)

-- The routers of the transport hold what the table says.
abbrev Implements : Transport → List Entry → Type 0
Implements t es = (server local : Text) → deliver t server local ≡ matching es server local

-- Each step keeps the routers and the table together.
opened-Implements :
    (t : Transport) (es : List Entry) (server local : Text) (s : ℕ) (r : Router)
    → Implements t es
    → ((b : Text) → write r b ≡ deliver t server b)
    → Implements
        (record t { routers = insert t.routers server (open_route r local s) })
        (es ++ record { server = server; local = local; sub = s } ∷ [])
opened-Implements t es server local s r h w a b =
    let e : Entry = record { server = server; local = local; sub = s } in
    deliver-insert t server (open_route r local s) a b
    ∙ ground (
      arith,
      write-open_route r local s b,
      matching-append es e a b,
      h a b,
      h server b,
      h server local,
      w b,
      w local,
      text_eq_iff server a,
      text_eq_iff local b,
      append-nil (matching es a b),
    )

closed-Implements :
    (t : Transport) (es : List Entry) (server local : Text) (s : ℕ) (r : Router)
    → lookup t.routers server ≡ some r
    → Implements t es
    → Implements (after_close t server (close_route r local s)) (removed es server local s)
closed-Implements t es server local s r l h a b =
    deliver-after_close t server (close_route r local s) a b
    ∙ ground (
      arith,
      close_route-after r local s b,
      matching-removed es server local s a b,
      h a b,
      h server b,
      h server local,
      write-deliver t server r l b,
      write-deliver t server r l local,
      text_eq_iff server a,
      text_eq_iff local b,
    )

join-Implements :
    (t : Transport) (es : List Entry) (server local : Text) (s : ℕ) (queue : Bool) (u : Transport)
    (o : Option Router)
    → lookup t.routers server ≡ o
    → with_subscription (join t server local s queue o) ≡ some u
    → Implements t es
    → Implements u (es ++ record { server = server; local = local; sub = s } ∷ [])
unfolding join
join-Implements t es server local s queue u none e k h =
    let r : Router = record { routes = []; queue = queue; active = false } in
    subst (λ v. Implements v (es ++ record { server = server; local = local; sub = s } ∷ []))
      (some-injective k)
      (opened-Implements t es server local s r h
        (λ b. unfold write deliver routes_of lookup in rw e refl))
join-Implements t es server local s queue u (some r) e k h =
    elim (Bool-cases (same_kind r.queue queue)) [
      | inl same ↦
          subst (λ v. Implements v (es ++ record { server = server; local = local; sub = s } ∷ []))
            (some-injective (sym (ap (λ c. with_subscription (pick c)) same) ∙ k))
            (opened-Implements t es server local s r h (write-deliver t server r e))
      | inr other ↦ absurd_option (sym (ap (λ c. with_subscription (pick c)) other) ∙ k)
    ]
  where
    pick : Bool → Opened
    pick c =
        if c
        then joined (record t { routers = insert t.routers server (open_route r local s) })
        else mismatch

    absurd_option :
        none ≡ some u → Implements u (es ++ record { server = server; local = local; sub = s } ∷ [])
    absurd_option q = cc

-- Where no router is, the table has no entry.
no_router :
    (t : Transport) (es : List Entry) (server a b : Text)
    → lookup t.routers server ≡ none
    → Implements t es
    → list_beq server a ≡ true
    → matching es a b ≡ []
no_router t es server a b e h k =
    sym (h a b) ∙ subst (λ c. deliver t c b ≡ []) ((text_eq_iff server a).0 k) nowhere
  where
    nowhere : deliver t server b ≡ []
    nowhere = unfold deliver routes_of in rw e refl

unsubscribe-Implements :
    (t : Transport) (es : List Entry) (server local : Text) (s : ℕ) (o : Option Router)
    → lookup t.routers server ≡ o
    → Implements t es
    → Implements (unsubscribe_in t server local s o) (removed es server local s)
unfolding unsubscribe_in
unsubscribe-Implements t es server local s (some r) e h a b =
    closed-Implements t es server local s r e h a b
unsubscribe-Implements t es server local s none e h a b =
    h a b ∙ sym (matching-removed es server local s a b ∙ same)
  where
    or_same-none : (s : ℕ) → or_same [] (remove_first [] s) ≡ []
    or_same-none s = unfold or_same remove_first in refl

    same :
        (if list_beq server a && list_beq local b
          then or_same (matching es a b) (remove_first (matching es a b) s)
          else matching es a b)
        ≡ matching es a b
    same = elim (Bool-cases (list_beq server a)) [
      | inl k ↦ ground (arith, no_router t es server a b e h k, or_same-none s)
      | inr k ↦ rw k refl
    ]

subscribed-Implements :
    (t : Transport) (es : List Entry) (server : Text) (r : Router)
    → lookup t.routers server ≡ some r
    → Implements t es
    → Implements (subscribed t server r true) es
unfolding subscribed
subscribed-Implements t es server r e h a b =
    deliver-insert t server (record r { active = true }) a b
    ∙ ground
        (arith, h a b, h server b, write-deliver t server r e b, text_eq_iff server a, still r b)
  where
    still : (r : Router) (b : Text) → write (record r { active = true }) b ≡ write r b
    still r b = unfold write in refl

refused-Implements :
    (t : Transport) (es : List Entry) (server : Text) (r : Router)
    → Implements t es
    → Implements (subscribed t server r false) (dropped es server)
unfolding subscribed
refused-Implements t es server r h a b =
    deliver-delete t server a b ∙ ground (arith, h a b, matching-dropped es server a b)

new-Implements : Implements new []
new-Implements a b = unfold new deliver routes_of matching lookup in refl

Runs-Implements : {t : Transport} {es : List Entry} → Runs t es → Implements t es
unfolding subscribe_router unsubscribe_router
Runs-Implements start = new-Implements
Runs-Implements (subscribes {t} {u} {es} server local s queue run e) =
    join-Implements t es server local s queue u (lookup t.routers server) refl e
      (Runs-Implements run)
Runs-Implements (accepted {t} {es} server r run e) =
    subscribed-Implements t es server r e (Runs-Implements run)
Runs-Implements (refused {t} {es} server r run e) =
    refused-Implements t es server r (Runs-Implements run)
Runs-Implements (closes {t} {es} server local s run) =
    unsubscribe-Implements t es server local s (lookup t.routers server) refl (Runs-Implements run)

-- However subscriptions are made and closed and whatever NATS answers, a message that a router gets
-- is written to exactly the subscriptions that the table has for its two channels, each once and in
-- the order in which they were made.
pub routers_refine_table :
    {t : Transport} {es : List Entry} (server local : Text)
    → Runs t es
    → deliver t server local ≡ matching es server local
routers_refine_table server local run = Runs-Implements run server local
