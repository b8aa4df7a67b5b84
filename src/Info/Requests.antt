-- ===== src/Info/Requests.antt =====
-- The channel of a single request, and the hierarchical names of a service's channels.
use psrpc.Base.{
  ℕ, ◌≡◌, refl, sym, ◌∙◌, ap, ap₂, Bool, true, false, List, [], ◌∷◌, ◌++◌, map, append_assoc,
  append-nil, Text, text, if◌then◌else◌, ltb, nat_beq, nat_beq_iff, length, arith, Bool-cases, inl,
  inr, ◌↔◌,
}
use psrpc.Info.Utf8.{runes}
use psrpc.Info.Channels.{
  is_channel_char, sanitize_rune, append_sanitized_channel_part, append_topics, append_runes,
  format_client_channel, format_server_channel, per_request_client_id, per_request_id,
  response_channel, split, extend_first, second_last,
}
use psrpc.Info.Sanitize.{sanitized-append}
use psrpc.Info.Keys.{led_parts, joined, joined-injective, led_parts-append, Free}

-- A split has at least one part.
split-cons : (d : ℕ) (x : Text) → (p : Text) × (ps : List Text) × (split d x ≡ p ∷ ps)
unfolding split extend_first
split-cons d [] = ([], [], refl)
split-cons d (c ∷ x) = elim (Bool-cases (nat_beq c d)) [
  | inl e ↦ ([], split d x, rw e)
  | inr e ↦ let (p, ps, h) = split-cons d x in (c ∷ p, ps, rw (e, h))
]

split-append : (d : ℕ) (x y : Text) → split d (x ++ d ∷ y) ≡ split d x ++ split d y
unfolding split
split-append d [] y = rw ((nat_beq_iff d d).1 refl)
split-append d (c ∷ x) y = elim (Bool-cases (nat_beq c d)) [
  | inl e ↦ rw e (ap (◌∷◌ []) (split-append d x y))
  | inr e ↦ rw e (ap (extend_first c) (split-append d x y) ∙ extend_first-append c x)
]
  where
    extend_first-append :
        (c : ℕ) (x : Text)
        → extend_first c (split d x ++ split d y) ≡ extend_first c (split d x) ++ split d y
    extend_first-append c x = let (p, ps, h) = split-cons d x in unfold extend_first in rw h

split-Free : (d : ℕ) (x : Text) → Free d x → split d x ≡ x ∷ []
unfolding split
split-Free d [] h = refl
split-Free d (c ∷ x) h = ground (arith, nat_beq_iff c d, split-Free d x h.1)

second_last-append : (ps : List Text) (a b : Text) → second_last (ps ++ a ∷ b ∷ []) ≡ a
unfolding second_last
second_last-append [] a b = refl
second_last-append (p ∷ []) a b = refl
second_last-append (p ∷ q ∷ []) a b = refl
second_last-append (p ∷ q ∷ r ∷ ps) a b = second_last-append (q ∷ r ∷ ps) a b

-- The client reads a request's ID off the subject of its own response channel: whatever the service
-- and the client are called, the ID comes back, if it holds no dot.
per_request_id-response_channel :
    (service client_id request_id : Text)
    → Free b'.' request_id
    → per_request_id (response_channel service (per_request_client_id client_id request_id)).server
      ≡ request_id
unfolding per_request_id response_channel format_client_channel per_request_client_id
per_request_id-response_channel service client_id request_id h =
    ap second_last (
      ap (split b'.') (named service client_id request_id)
      ∙ split-append b'.' (front service client_id) (request_id ++ b'.' ∷ text "RES")
      ∙ ap (◌++◌ (split b'.' (front service client_id))) (
          split-append b'.' request_id (text "RES")
          ∙ ap (λ ps. ps ++ split b'.' (text "RES")) (split-Free b'.' request_id h)))
    ∙ unfold split extend_first in
      second_last-append (split b'.' (front service client_id)) request_id (text "RES")
  where
    front : Text → Text → Text
    front s c = text "CLI." ++ (s ++ b'.' ∷ c)

    named :
        (s c r : Text)
        → text "CLI." ++ (s ++ (b'.' ∷ ((c ++ b'.' ∷ r) ++ (b'.' ∷ text "RES"))))
          ≡ front s c ++ b'.' ∷ (r ++ b'.' ∷ text "RES")
    named s c r = simp append_assoc

-- The topics that a server's name keeps: the others leave no trace.
abbrev pub kept : List Text → List Text
kept [] = []
kept (t ∷ ts) = if ltb 0 (length t) then t ∷ kept ts else kept ts

append_topics-led_parts :
    (b : Text) (ts : List Text) → append_topics b ts ≡ b ++ led_parts b'.' (kept ts)
unfolding append_topics led_parts
append_topics-led_parts b [] = sym (append-nil b)
append_topics-led_parts b (t ∷ ts) = elim (Bool-cases (ltb 0 (length t))) [
  | inl e ↦ rw e (
      append_topics-led_parts (append_sanitized_channel_part (b ++ b'.' ∷ []) t) ts
      ∙ rw (sanitized-append (b ++ b'.' ∷ []) t) (simp append_assoc))
  | inr e ↦ rw e (append_topics-led_parts b ts)
]

-- The mark of a queue reads like a last topic.
abbrev pub mark : Bool → List Text
mark true = text "Q" ∷ []
mark false = []

server_channel-led_parts :
    (service : Text) (ts : List Text) (q : Bool)
    → format_server_channel service ts q
      ≡ (text "SRV." ++ service) ++ led_parts b'.' (kept ts ++ mark q)
unfolding format_server_channel append_sanitized_channel_part runes sanitize_rune
server_channel-led_parts service ts true =
    ap (λ x. x ++ text ".Q") (append_topics-led_parts (text "SRV." ++ service) ts)
    ∙ append_assoc (text "SRV." ++ service) (led_parts b'.' (kept ts)) (text ".Q")
    ∙ ap (λ x. (text "SRV." ++ service) ++ x) (sym (led_parts-append b'.' (kept ts) (text "Q")))
server_channel-led_parts service ts false =
    append_topics-led_parts (text "SRV." ++ service) ts ∙ rw (append-nil (kept ts))

append-cancel : (x y z : Text) → x ++ y ≡ x ++ z → y ≡ z
append-cancel [] y z e = e
append-cancel (c ∷ x) y z e = append-cancel x y z (cc)

led_parts-runes :
    (d : ℕ) (ts us : List Text) → map runes ts ≡ map runes us → led_parts d ts ≡ led_parts d us
unfolding led_parts append_sanitized_channel_part
led_parts-runes d [] [] e = refl
led_parts-runes d [] (u ∷ us) e = cc
led_parts-runes d (t ∷ ts) [] e = cc
led_parts-runes d (t ∷ ts) (u ∷ us) e =
    let a : runes t ≡ runes u = cc in
    ap₂ (λ r x. d ∷ (append_runes [] r ++ x)) a (led_parts-runes d ts us (cc))

led_parts-injective :
    (ts us : List Text) → led_parts b'.' ts ≡ led_parts b'.' us → map runes ts ≡ map runes us
unfolding led_parts
led_parts-injective [] [] e = refl
led_parts-injective [] (u ∷ us) e = cc
led_parts-injective (t ∷ ts) [] e = cc
led_parts-injective (t ∷ ts) (u ∷ us) e =
    let (a, b) =
      joined-injective b'.' t u ts us (unfold is_channel_char in refl)
        (unfold joined in append-cancel (b'.' ∷ []) _ _ e) in
    cc (a, b)

-- Two subjects of one service are equal exactly when the topics that are not empty hold the same
-- runes, a queue counting as one more topic `Q`. Bytes that are not UTF-8 all read as one rune, empty topics do not tell subjects apart, and a topic `Q` of an
-- ordinary method gives the subject of a queue.
pub server_channel_eq :
    (service : Text) (ts us : List Text) (p q : Bool)
    → (format_server_channel service ts p ≡ format_server_channel service us q)
      ↔ (map runes (kept ts ++ mark p) ≡ map runes (kept us ++ mark q))
server_channel_eq service ts us p q = (
  λ e. led_parts-injective (kept ts ++ mark p) (kept us ++ mark q) (
      append-cancel (text "SRV." ++ service) _ _
        (sym (server_channel-led_parts service ts p) ∙ e ∙ server_channel-led_parts service us q)),
  λ e.
      server_channel-led_parts service ts p
      ∙ ap (◌++◌ (text "SRV." ++ service))
          (led_parts-runes b'.' (kept ts ++ mark p) (kept us ++ mark q) e)
      ∙ sym (server_channel-led_parts service us q),
)
