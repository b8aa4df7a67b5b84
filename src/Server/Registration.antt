-- ===== src/Server/Registration.antt =====
-- pkg/server/registration.go: RegistererSlice, over servers known by the handlers registered there. A
-- registerer registers and deregisters one handler, known by a number; `error` is what registering it
-- returns.
use psrpc.Base.{
  ℕ, ◌≡◌, refl, sym, ◌∙◌, ap, Bool, true, false, ◌||◌, List, [], ◌∷◌, ◌++◌, Option, none, some,
  if◌then◌else◌, nat_beq, nat_beq_iff, All, arith, Bool-cases, inl, inr,
}

pub record Registerer (E : Type 0) : Type 0 where
  pub handler : ℕ
  pub error : Option E

-- Which handlers a server has.
abbrev pub Registered : Type 0
Registered = ℕ → Bool

unfoldable pub put : Registered → ℕ → Bool → Registered
put s h b = λ k. if nat_beq h k then b else s k

module _ {E : Type 0} where
  unfoldable pub deregister : List (Registerer E) → Registered → Registered
  unfolding put
  deregister [] s = s
  deregister (r ∷ rs) s = deregister rs (put s r.handler false)

  unfoldable pub tried : Option E → Registered → Registered × Option E → Registered × Option E
  tried (some e) undone rest = (undone, some e)
  tried none undone rest = rest

  -- The loop of Register: `front` is `rs[:i]`.
  unfoldable pub register_from :
      List (Registerer E) → List (Registerer E) → Registered → Registered × Option E
  unfolding deregister put tried
  register_from front [] s = (s, none)
  register_from front (r ∷ rs) s =
      tried r.error (deregister front s) (register_from (front ++ r ∷ []) rs (put s r.handler true))

  unfoldable pub register : List (Registerer E) → Registered → Registered × Option E
  unfolding register_from
  register rs s = register_from [] rs s

  among : List (Registerer E) → ℕ → Bool
  among [] k = false
  among (r ∷ rs) k = nat_beq r.handler k || among rs k

  deregister_lem :
      (rs : List (Registerer E)) (s : Registered) (k : ℕ)
      → deregister rs s k ≡ (if among rs k then false else s k)
  unfolding deregister put among
  deregister_lem [] s k = refl
  deregister_lem (r ∷ rs) s k = ground (arith, deregister_lem rs (put s r.handler false) k)

  among-append :
      (rs qs : List (Registerer E)) (k : ℕ) → among (rs ++ qs) k ≡ (among rs k || among qs k)
  unfolding among
  among-append [] qs k = refl
  among-append (r ∷ rs) qs k = ground (arith, among-append rs qs k)

  tried_lem :
      (o : Option E) (undone : Registered) (rest : Registered × Option E) (e : E) (k : ℕ) (b : Bool)
      → undone k ≡ b
      → (rest.1 ≡ some e → rest.0 k ≡ b)
      → (tried o undone rest).1 ≡ some e
      → (tried o undone rest).0 k ≡ b
  unfolding tried
  tried_lem (some x) undone rest e k b u h f = u
  tried_lem none undone rest e k b u h f = h f

  -- With one more handler in front, which was registered.
  put_lem :
      (front : List (Registerer E)) (r : Registerer E) (s₀ s : Registered) (j : ℕ)
      → s₀ r.handler ≡ false
      → (if among front j then false else s j) ≡ s₀ j
      → (if among (front ++ r ∷ []) j then false else put s r.handler true j) ≡ s₀ j
  unfolding put
  put_lem front r s₀ s j n h = elim (Bool-cases (nat_beq r.handler j)) [
    | inl e ↦
        let same : s₀ j ≡ false = ap s₀ (sym ((nat_beq_iff r.handler j).0 e)) ∙ n in
        rw (among-append front (r ∷ []) j) (unfold among in rw e (ground (arith, same)))
    | inr e ↦ rw (among-append front (r ∷ []) j) (unfold among in rw e (ground (arith, h)))
  ]

  -- What is registered but for the handlers in front is as it was.
  register_from-undone :
      (front rs : List (Registerer E)) (s₀ s : Registered) (e : E) (k : ℕ)
      → All (λ r. s₀ r.handler ≡ false) rs
      → ((j : ℕ) → (if among front j then false else s j) ≡ s₀ j)
      → (register_from front rs s).1 ≡ some e
      → (register_from front rs s).0 k ≡ s₀ k
  unfolding register_from
  register_from-undone front [] s₀ s e k new h f = cc
  register_from-undone front (r ∷ rs) s₀ s e k new h f =
      tried_lem r.error (deregister front s)
        (register_from (front ++ r ∷ []) rs (put s r.handler true)) e k (s₀ k)
        (deregister_lem front s k ∙ h k)
        (register_from-undone (front ++ r ∷ []) rs s₀ (put s r.handler true) e k new.1
          (λ j. put_lem front r s₀ s j new.0 (h j)))
        f

  -- All or nothing: if a registration fails, exactly the handlers that the server had before are
  -- registered afterwards, if it had none of those to be registered.
  pub failed_register_undone :
      (rs : List (Registerer E)) (s : Registered) (e : E) (k : ℕ)
      → All (λ r. s r.handler ≡ false) rs
      → (register rs s).1 ≡ some e
      → (register rs s).0 k ≡ s k
  unfolding register among
  failed_register_undone rs s e k new f = register_from-undone [] rs s s e k new (λ j. refl) f
