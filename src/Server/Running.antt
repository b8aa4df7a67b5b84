-- ===== src/Server/Running.antt =====
-- What the server's map and count say of the handlers that run.
use psrpc.Base.{
  some-injective, ℕ, suc, zero, ◌≡◌, refl, sym, ap, ◌∙◌, true, false, List, [], ◌∷◌, ◌++◌, none,
  some, Text, if◌then◌else◌, list_beq, nat_beq, is_some, arith, text_comparable, Option-cases, inl,
  inr, Bool-cases,
}
use psrpc.Base.Assoc.{lookup, lookup-insert, lookup-delete}
use psrpc.Server.Handlers.{
  count_from, RpcServer, new_rpc_server, check_registration, add_handler, count_off, remove_handler,
  close_server, close_returns,
}
use psrpc.Server.Table.{
  Distinct-remove, unfinished-remove, handler_of-remove, Distinct-mark, unfinished-mark,
  handler_of-mark, Distinct, handler_of, unfinished, Running,
}

-- The server's steps, with the handlers that run: a registration's check and its addition are one
-- step here, where the code would let another registration or a close come between.
pub data Runs : RpcServer → List Running → Type 0 where
  start : Runs new_rpc_server []
  registers :
      {s : RpcServer} {rs : List Running} (key : Text) (h : ℕ)
      → Runs s rs
      → check_registration s key ≡ none
      → Runs (add_handler s key h) (record { key = key; handler = h; done = false } ∷ rs)
  counts_off :
      {s t : RpcServer} (front : List Running) (key : Text) (h : ℕ) (back : List Running)
      → Runs s (front ++ record { key = key; handler = h; done = false } ∷ back)
      → count_off s ≡ some t
      → Runs t (front ++ record { key = key; handler = h; done = true } ∷ back)
  removes :
      {s : RpcServer} (front : List Running) (key : Text) (h : ℕ) (back : List Running)
      → Runs s (front ++ record { key = key; handler = h; done = true } ∷ back)
      → Runs (remove_handler s key) (front ++ back)
  closes : {s : RpcServer} {rs : List Running} → Runs s rs → Runs (close_server s).0 rs

abbrev Knows : RpcServer → List Running → Type 0
Knows s rs =
    ((k : Text) → lookup s.handlers k ≡ handler_of rs k) × (s.active ≡ unfinished rs) × Distinct rs

check_registration-new :
    (s : RpcServer) (key : Text) → check_registration s key ≡ none → lookup s.handlers key ≡ none
unfolding check_registration
check_registration-new s key h = elim (Option-cases (lookup s.handlers key)) [
  | inl e ↦ e
  | inr (x, e) ↦ ground (arith, h, e)
]

count_off-active :
    (s t : RpcServer) → count_off s ≡ some t → (s.active ≡ suc t.active) × (t.handlers ≡ s.handlers)
unfolding count_off count_from
count_off-active s t h = counted s.active refl h
  where
    counted :
        (n : ℕ)
        → s.active ≡ n
        → count_from s n ≡ some t
        → (s.active ≡ suc t.active) × (t.handlers ≡ s.handlers)
    counted zero e k = (cc, cc)
    counted (suc n) e k =
        let u = some-injective k in (e ∙ ap (λ s. suc s.active) u, sym (ap (λ s. s.handlers) u))

Runs-Knows : {s : RpcServer} {rs : List Running} → Runs s rs → Knows s rs
unfolding add_handler remove_handler handler_of unfinished Distinct close_server
Runs-Knows start = unfold new_rpc_server lookup in (λ k. refl, refl, tt)
Runs-Knows (registers {s} {rs} key h run c) =
    let (l, a, d) = Runs-Knows run in
    (
      λ k. lookup-insert s.handlers key h k ∙ ap (λ o. if list_beq key k then some h else o) (l k),
      omega (arith, a),
      (sym (l key) ∙ check_registration-new s key c, d),
    )
Runs-Knows (counts_off {s} {t} front key h back run c) =
    let (l, a, d) = Runs-Knows run in
    let (m, o) = count_off-active s t c in
    let r : Running = record { key = key; handler = h; done = false } in
    (
      λ k. ap (λ m. lookup m k) o ∙ l k ∙ sym (handler_of-mark front r true back k),
      omega (arith, m, a, unfinished-mark front r back),
      Distinct-mark front r true back d,
    )
Runs-Knows (removes {s} front key h back run) =
    let (l, a, d) = Runs-Knows run in
    let r : Running = record { key = key; handler = h; done = true } in
    (
      λ k.
          lookup-delete s.handlers key k
          ∙ ap (λ o. if list_beq key k then none else o) (l k)
          ∙ sym (handler_of-remove front r back k d),
      a ∙ unfinished-remove front r back refl,
      Distinct-remove front r back d,
    )
Runs-Knows (closes {s} {rs} run) = elim (Bool-cases s.shutdown) [
  | inl y ↦ rw y (Runs-Knows run)
  | inr y ↦ rw y (Runs-Knows run)
]

not_finished :
    (front : List Running) (r : Running) (back : List Running)
    → r.done ≡ false
    → nat_beq (unfinished (front ++ r ∷ back)) 0 ≡ false
unfolding unfinished
not_finished [] r back e = rw e (ground arith)
not_finished (f ∷ front) r back e = ground (arith, not_finished front r back e)

-- However handlers are registered, complete and are closed with the server, where a registration's
-- check and its addition are one step: the map has exactly the handlers that run, each under its key.
-- As long as one was not counted off, no graceful Close returns, and counting it off does not panic.
pub server_knows_running :
    {s : RpcServer} {rs : List Running}
    → Runs s rs
    → ((k : Text) → lookup s.handlers k ≡ handler_of rs k)
      × ((front : List Running) (r : Running) (back : List Running)
          → rs ≡ front ++ r ∷ back
          → r.done ≡ false
          → (close_returns s false ≡ false) × (is_some (count_off s) ≡ true))
unfolding close_returns count_off
server_knows_running {s} {rs} run =
    let (l, a, d) = Runs-Knows run in
    (
      l,
      λ front r back e n.
          let z = ap (λ m. nat_beq m 0) (a ∙ ap unfinished e) ∙ not_finished front r back n in
          (z, counted s.active z),
    )
  where
    counted : (n : ℕ) → nat_beq n 0 ≡ false → is_some (count_from s n) ≡ true
    counted zero h = ground arith
    counted (suc n) h = unfold count_from in refl
