-- ===== src/Server/Ending.antt =====
-- What the close of a server's stream handler leaves.
use psrpc.Base.{
  ℕ, ◌≡◌, refl, sym, ap, ◌∙◌, true, List, [], ◌∷◌, ◌++◌, Option, none, some, Text, subst, list_beq,
  text_eq_iff, false, ◌||◌, nat_beq, All, Bool, Bool-cases, inl, inr, if◌then◌else◌, is_some, map,
  append_assoc, append-nil, arith, text_comparable,
}
use psrpc.Base.Assoc.{lookup, lookup-delete}
use psrpc.Errors.Values.{GoError}
use psrpc.Info.Channels.{RequestInfo}
use psrpc.Client.Select.Scores.{Floats}
use psrpc.Server.Streams.{
  StreamMessage, Around, StreamHandler, close_stream, end_stream, is_closed, forget_stream,
  close_streams, close_handler, handle_message, handle_body,
}

-- A map of streams: keys and streams are distinct.
abbrev pub IsStreamMap : List (Text × ℕ) → Type 0
IsStreamMap [] = Unit
IsStreamMap ((stream_id, ss) ∷ rest) =
    (lookup rest stream_id ≡ none) × All (λ e. nat_beq ss e.1 ≡ false) rest × IsStreamMap rest

module _ {D : Type 0} where
  -- The streams of a map that are not closed yet.
  unfoldable pub still_open : List (ℕ × Option (GoError D)) → List (Text × ℕ) → List (Text × ℕ)
  still_open closed [] = []
  still_open closed ((stream_id, ss) ∷ rest) =
      let others = still_open closed rest in
      if is_closed closed ss then others else (stream_id, ss) ∷ others

  -- What the map has once its streams were closed.
  abbrev pub only_closed : List (ℕ × Option (GoError D)) → Option ℕ → Option ℕ
  only_closed closed none = none
  only_closed closed (some ss) = if is_closed closed ss then some ss else none

  is_closed-snoc :
      (closed : List (ℕ × Option (GoError D))) (other ss : ℕ) (cause : Option (GoError D))
      → is_closed (closed ++ (other, cause) ∷ []) ss ≡ (is_closed closed ss || nat_beq other ss)
  unfolding is_closed
  is_closed-snoc [] other ss cause = ground arith
  is_closed-snoc (e ∷ closed) other ss cause = ground (arith, is_closed-snoc closed other ss cause)

  still_open-snoc :
      (closed : List (ℕ × Option (GoError D))) (other : ℕ) (cause : Option (GoError D))
      (rest : List (Text × ℕ))
      → All (λ e. nat_beq other e.1 ≡ false) rest
      → still_open (closed ++ (other, cause) ∷ []) rest ≡ still_open closed rest
  unfolding still_open
  still_open-snoc closed other cause [] a = refl
  still_open-snoc closed other cause ((stream_id, ss) ∷ rest) (n, a) =
      rw (is_closed-snoc closed other ss cause, n, still_open-snoc closed other cause rest a)
        (or_false (is_closed closed ss))
    where
      or_false :
          (b : Bool)
          → (if b || false
              then still_open closed rest
              else (stream_id, ss) ∷ still_open closed rest)
            ≡ (if b then still_open closed rest else (stream_id, ss) ∷ still_open closed rest)
      or_false true = refl
      or_false false = refl

  still_open-absent :
      (closed : List (ℕ × Option (GoError D))) (m : List (Text × ℕ)) (j : Text)
      → lookup m j ≡ none
      → lookup (still_open closed m) j ≡ none
  unfolding still_open lookup
  still_open-absent closed [] j h = refl
  still_open-absent closed ((stream_id, ss) ∷ rest) j h =
      ground (arith, h, still_open-absent closed rest j)

  lookup-still_open :
      (closed : List (ℕ × Option (GoError D))) (m : List (Text × ℕ)) (j : Text)
      → IsStreamMap m
      → (if is_some (lookup (still_open closed m) j) then none else lookup m j)
        ≡ only_closed closed (lookup m j)
  unfolding still_open lookup
  lookup-still_open closed [] j m = refl
  lookup-still_open closed ((stream_id, ss) ∷ rest) j (n, a, m) =
      elim (Bool-cases (list_beq stream_id j)) [
        | inl same ↦ elim (Bool-cases (is_closed closed ss)) [
          | inl y ↦
              rw
                (
                  same,
                  y,
                  still_open-absent closed rest j
                      (ap (lookup rest) (sym ((text_eq_iff stream_id j).0 same)) ∙ n),
                )
                refl
          | inr y ↦ rw (y, same) (rw y refl)
        ]
        | inr other ↦ elim (Bool-cases (is_closed closed ss)) [
          | inl y ↦ rw (other, y) (lookup-still_open closed rest j m)
          | inr y ↦ rw (y, other) (lookup-still_open closed rest j m)
        ]
      ]

module _ {F D : Type 0} where
  -- A handler whose streams `ended` were closed since `h`.
  abbrev EndsAs :
      StreamHandler F D → Option (GoError D) → List (Text × ℕ) → StreamHandler F D → Type 0
  EndsAs h cause ended u =
      (u.closed ≡ h.closed ++ map (λ e. (e.1, cause)) ended)
      × (u.draining ≡ h.draining)
      × ((j : Text)
          → lookup u.streams j ≡ (if is_some (lookup ended j) then none else lookup h.streams j))

  end_stream-EndsAs :
      (h u : StreamHandler F D) (stream_id : Text) (ss : ℕ) (cause : Option (GoError D))
      (ended : List (Text × ℕ))
      → EndsAs (end_stream h stream_id ss cause) cause ended u
      → EndsAs h cause ((stream_id, ss) ∷ ended) u
  unfolding end_stream forget_stream lookup
  end_stream-EndsAs h u stream_id ss cause ended (c, d, s) = (
    c ∙ append_assoc h.closed ((ss, cause) ∷ []) (map (λ e. (e.1, cause)) ended),
    d,
    λ j. s j ∙ ground (arith, lookup-delete h.streams stream_id j),
  )

  -- The loop over streams of the map.
  closed_streams :
      (h : StreamHandler F D) (rest : List (Text × ℕ)) (cause : Option (GoError D))
      → IsStreamMap rest
      → EndsAs h cause (still_open h.closed rest) (close_streams h rest cause)
  unfolding close_streams close_stream still_open
  closed_streams h [] cause m = unfold lookup in (sym (append-nil h.closed), refl, λ j. refl)
  closed_streams h ((stream_id, ss) ∷ rest) cause (n, a, m) =
      by_closed (is_closed h.closed ss) (closed_streams h rest cause m)
        (closed_streams (end_stream h stream_id ss cause) rest cause m)
    where
      by_closed :
          (b : Bool)
          → EndsAs h cause (still_open h.closed rest) (close_streams h rest cause)
          → EndsAs
              (end_stream h stream_id ss cause)
              cause
              (still_open (end_stream h stream_id ss cause).closed rest)
              (close_streams (end_stream h stream_id ss cause) rest cause)
          → EndsAs h cause
              (if b then still_open h.closed rest else (stream_id, ss) ∷ still_open h.closed rest)
              (close_streams (if b then h else end_stream h stream_id ss cause) rest cause)
      by_closed true k l = k
      by_closed false k l =
          end_stream-EndsAs h (close_streams (end_stream h stream_id ss cause) rest cause) stream_id
            ss cause (still_open h.closed rest)
            (subst
              (λ l.
                EndsAs (end_stream h stream_id ss cause) cause l
                  (close_streams (end_stream h stream_id ss cause) rest cause))
              (unfold end_stream forget_stream in still_open-snoc h.closed ss cause rest a) l)

  -- When a handler of streams is closed, whose map has distinct keys and streams, every stream in it
  -- that is not closed already is closed
  -- once with that error and leaves the map; one whose own close waits for what is pending keeps the
  -- cause that it has, and is left in the map. Opens that come later change nothing.
  pub close_ends_streams :
      (fl : Floats F) (one : F) (i : RequestInfo) (id : Text) (affinity_func : Option F)
      (out : Around D) (h : StreamHandler F D) (eof : GoError D)
      → IsStreamMap h.streams
      → let u = close_handler h eof in
        (u.closed ≡ h.closed ++ map (λ e. (e.1, some eof)) (still_open h.closed h.streams))
        × ((j : Text) → lookup u.streams j ≡ only_closed h.closed (lookup h.streams j))
        × ((is : StreamMessage) (node : Text) (ss : ℕ)
            → is.open_node ≡ some node
            → handle_message fl one i id affinity_func out u is ss ≡ (u, none))
  unfolding close_handler handle_message handle_body
  close_ends_streams fl one i id affinity_func out h eof m =
      let (c, d, s) = closed_streams (record h { draining = true }) h.streams (some eof) m in
      (
        c,
        λ j. s j ∙ lookup-still_open h.closed h.streams j m,
        λ is node ss o.
            ap (λ o. handle_body fl one i id affinity_func out o (close_handler h eof) is ss) o
            ∙ rw d refl,
      )
