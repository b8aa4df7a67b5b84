-- ===== src/Info/Keys.antt =====
-- Channel names and handler keys are joined from escaped parts, and can be taken apart again.
use psrpc.Base.{
  ℕ, ◌≡◌, ◌≢◌, refl, sym, ◌∙◌, ap, Bool, true, false, ◌||◌, List, [], ◌∷◌, ◌++◌, map, append_assoc,
  append-nil, map-append, Text, if◌then◌else◌, ltb, nat_beq, length, length-append, All, arith,
}
use psrpc.Info.Utf8.{runes}
use psrpc.Info.Channels.{
  RequestInfo, Part, str, strs, is_channel_char, append_sanitized_channel_part, append_strings,
  append_channel_parts, format_channel, handler_key, legacy_channel,
}
use psrpc.Info.Sanitize.{
  IsPlainChar, sanitized_plain, sanitized_injective, sanitized-append, sanitized-nonempty,
  runes-nonempty,
}

abbrev pub NonEmpty : Text → Type 0
NonEmpty t = t ≢ []

abbrev pub escaped : Text → Text
escaped t = append_sanitized_channel_part [] t

-- The parts, each led by the delimiter.
unfoldable pub led_parts : ℕ → List Text → Text
led_parts d [] = []
led_parts d (t ∷ ts) = d ∷ (escaped t ++ led_parts d ts)

-- A name joined from parts, the first of which is given apart.
unfoldable pub joined : ℕ → Text → List Text → Text
joined d t ts = escaped t ++ led_parts d ts

grows : (buf s : Text) → s ≢ [] → ltb (length buf) (length (buf ++ s)) ≡ true
grows buf [] h = absurd (h refl)
grows buf (c ∷ s) h = ground (arith, length-append buf (c ∷ s))

append_strings-true :
    (buf : Text) (d : ℕ) (ts : List Text)
    → All NonEmpty ts
    → append_strings buf true d ts ≡ buf ++ led_parts d ts
unfolding append_strings led_parts
append_strings-true buf d [] h = sym (append-nil buf)
append_strings-true buf d (t ∷ ts) h = rw (sanitized-append (buf ++ d ∷ []) t) (
    rw (grows (buf ++ d ∷ []) (escaped t) (sanitized-nonempty t h.0))
      (append_strings-true ((buf ++ d ∷ []) ++ escaped t) d ts h.1 ∙ simp append_assoc))

append_strings-false :
    (buf : Text) (d : ℕ) (t : Text) (ts : List Text)
    → All NonEmpty (t ∷ ts)
    → append_strings buf false d (t ∷ ts) ≡ buf ++ joined d t ts
unfolding append_strings joined
append_strings-false buf d t ts h = rw (sanitized-append buf t) (
    rw (grows buf (escaped t) (sanitized-nonempty t h.0))
      (append_strings-true (buf ++ escaped t) d ts h.1 ∙ append_assoc buf (escaped t) _))

-- The delimiter stands in no escaped part.
abbrev pub IsDelim : ℕ → Type 0
IsDelim d = (is_channel_char d || nat_beq d b'+') ≡ false

abbrev pub Free : ℕ → Text → Type 0
Free d = All (λ c. c ≢ d)

not_delim : (d c : ℕ) → IsDelim d → IsPlainChar c → c ≢ d
not_delim d c h k = λ e. cc

plain-Free : (d : ℕ) (t : Text) → IsDelim d → All IsPlainChar t → Free d t
plain-Free d [] h k = tt
plain-Free d (c ∷ t) h k = (not_delim d c h k.0, plain-Free d t h k.1)

pub escaped-Free : (d : ℕ) (t : Text) → IsDelim d → Free d (escaped t)
escaped-Free d t h = plain-Free d (escaped t) h (sanitized_plain t)

-- Two texts cut at their first delimiter.
pub cut :
    (d : ℕ) (x y v w : Text) → Free d x → Free d y → x ++ d ∷ v ≡ y ++ d ∷ w → (x ≡ y) × (v ≡ w)
cut d [] [] v w hx hy e = (refl, cc)
cut d [] (b ∷ y) v w hx hy e = absurd (hy.0 cc)
cut d (a ∷ x) [] v w hx hy e = absurd (hx.0 cc)
cut d (a ∷ x) (b ∷ y) v w hx hy e = let (p, q) = cut d x y v w hx.1 hy.1 (cc) in (cc, q)

pub no_cut : (d : ℕ) (x y v : Text) → Free d y → x ++ d ∷ v ≢ y
no_cut d [] [] v h = λ e. cc
no_cut d [] (b ∷ y) v h = λ e. h.0 (cc)
no_cut d (a ∷ x) [] v h = λ e. cc
no_cut d (a ∷ x) (b ∷ y) v h = λ e. no_cut d x y v h.1 (cc)

pub joined-injective :
    (d : ℕ) (t u : Text) (ts us : List Text)
    → IsDelim d
    → joined d t ts ≡ joined d u us
    → (runes t ≡ runes u) × (map runes ts ≡ map runes us)
unfolding joined led_parts
joined-injective d t u [] [] h e =
    (sanitized_injective t u (sym (append-nil (escaped t)) ∙ e ∙ append-nil (escaped u)), refl)
joined-injective d t u [] (v ∷ us) h e =
    absurd
      (no_cut d (escaped u) (escaped t) _ (escaped-Free d t h) (sym e ∙ append-nil (escaped t)))
joined-injective d t u (v ∷ ts) [] h e =
    absurd (no_cut d (escaped t) (escaped u) _ (escaped-Free d u h) (e ∙ append-nil (escaped u)))
joined-injective d t u (v ∷ ts) (w ∷ us) h e =
    let (a, b) =
      cut d (escaped t) (escaped u) (joined d v ts) (joined d w us) (escaped-Free d t h)
        (escaped-Free d u h) e in
    let (x, y) = joined-injective d v w ts us h b in (sanitized_injective t u a, cc (x, y))

-- A handler key without topics ends in the delimiter, as if with one empty topic.
topics_of : List Text → List Text
topics_of [] = [] ∷ []
topics_of (t ∷ ts) = t ∷ ts

escaped-nil : escaped [] ≡ []
unfolding append_sanitized_channel_part runes
escaped-nil = refl

keyed :
    (m : Text) (ts : List Text)
    → All NonEmpty ts
    → append_strings (escaped m ++ b'.' ∷ []) false b'.' ts ≡ joined b'.' m (topics_of ts)
unfolding append_strings joined led_parts topics_of
keyed m [] h = rw escaped-nil
keyed m (t ∷ ts) h =
    append_strings-false (escaped m ++ b'.' ∷ []) b'.' t ts h
    ∙ append_assoc (escaped m) (b'.' ∷ []) (joined b'.' t ts)

handler_key-joined :
    (i : RequestInfo)
    → NonEmpty i.method
    → All NonEmpty i.topic
    → handler_key i ≡ joined b'.' i.method (topics_of i.topic)
unfolding handler_key format_channel append_channel_parts
handler_key-joined i hm ht =
    rw (grows [] (escaped i.method) (sanitized-nonempty i.method hm)) (keyed i.method i.topic ht)

topics_of-injective :
    (ts us : List Text)
    → All NonEmpty ts
    → All NonEmpty us
    → map runes (topics_of ts) ≡ map runes (topics_of us)
    → map runes ts ≡ map runes us
unfolding topics_of runes
topics_of-injective [] [] ht hu e = refl
topics_of-injective [] (u ∷ us) ht hu e = absurd (runes-nonempty u hu.0 (cc))
topics_of-injective (t ∷ ts) [] ht hu e = absurd (runes-nonempty t ht.0 (cc))
topics_of-injective (t ∷ ts) (u ∷ us) ht hu e = e

-- Handlers are registered under keys that keep them apart: two requests whose methods and topics
-- are not empty have the same handler key only if they agree on the method and on every topic.
pub handler_key_injective :
    (i j : RequestInfo)
    → NonEmpty i.method
    → NonEmpty j.method
    → All NonEmpty i.topic
    → All NonEmpty j.topic
    → handler_key i ≡ handler_key j
    → (runes i.method ≡ runes j.method) × (map runes i.topic ≡ map runes j.topic)
handler_key_injective i j hi hj ti tj e =
    let (m, ts) =
      joined-injective b'.' i.method j.method (topics_of i.topic) (topics_of j.topic)
        (unfold is_channel_char in refl)
        (sym (handler_key-joined i hi ti) ∙ e ∙ handler_key-joined j hj tj) in
    (m, topics_of-injective i.topic j.topic ti tj ts)

led : Bool → ℕ → Text → Text
led p d buf = if p then buf ++ d ∷ [] else buf

part_str :
    (buf : Text) (p : Bool) (d : ℕ) (t : Text) (ps : List Part)
    → NonEmpty t
    → append_channel_parts buf p d (str t ∷ ps)
      ≡ append_channel_parts (led p d buf ++ escaped t) true d ps
unfolding append_channel_parts led
part_str buf p d t ps h =
    rw (sanitized-append (if p then buf ++ d ∷ [] else buf) t)
      (rw (grows (if p then buf ++ d ∷ [] else buf) (escaped t) (sanitized-nonempty t h)))

length_nil : (buf : Text) → ltb (length buf) (length buf) ≡ false
length_nil buf = ground arith

joined-nonempty : (d : ℕ) (t : Text) (ts : List Text) → NonEmpty t → joined d t ts ≢ []
unfolding joined
joined-nonempty d t ts h = go (escaped t) (sanitized-nonempty t h)
  where
    go : (x : Text) → x ≢ [] → x ++ led_parts d ts ≢ []
    go [] k = absurd (k refl)
    go (c ∷ x) k = λ e. cc

pub led_parts-append :
    (d : ℕ) (ts : List Text) (k : Text)
    → led_parts d (ts ++ k ∷ []) ≡ led_parts d ts ++ d ∷ escaped k
unfolding led_parts
led_parts-append d [] k = simp append-nil
led_parts-append d (t ∷ ts) k =
    simp append_assoc (ap (λ x. d ∷ (escaped t ++ x)) (led_parts-append d ts k))

part_strs :
    (buf : Text) (d : ℕ) (ts : List Text) (k : Text)
    → All NonEmpty ts
    → NonEmpty k
    → append_channel_parts buf true d (strs ts ∷ str k ∷ []) ≡ buf ++ led_parts d (ts ++ k ∷ [])
unfolding append_channel_parts append_strings led_parts
part_strs buf d [] k ht hk =
    rw (length_nil (buf ++ d ∷ []))
      (rw (sanitized-append (buf ++ d ∷ []) k) (simp (append_assoc, append-nil)))
part_strs buf d (t ∷ ts) k ht hk =
    let whole = append_strings-false (buf ++ d ∷ []) d t ts ht in
    rw whole (
      rw (grows (buf ++ d ∷ []) (joined d t ts) (joined-nonempty d t ts ht.0)) (
        rw (sanitized-append (((buf ++ d ∷ []) ++ joined d t ts) ++ d ∷ []) k)
          (rw (led_parts-append d ts k) (unfold joined in simp append_assoc))))

-- A legacy name joins the service, the method, the topics and the kind.
legacy_channel-joined :
    (i : RequestInfo) (kind : Text)
    → NonEmpty i.service
    → NonEmpty i.method
    → All NonEmpty i.topic
    → NonEmpty kind
    → legacy_channel i kind ≡ joined b'|' i.service (i.method ∷ (i.topic ++ kind ∷ []))
unfolding format_channel joined led_parts
legacy_channel-joined i kind hs hm ht hk =
    part_str [] false b'|' i.service _ hs
    ∙ part_str _ true b'|' i.method _ hm
    ∙ part_strs _ b'|' i.topic kind ht hk
    ∙ unfold led in simp append_assoc

snoc_injective {ℓ} :
    {A : Type ℓ} (xs ys : List A) (x y : A) → xs ++ x ∷ [] ≡ ys ++ y ∷ [] → (xs ≡ ys) × (x ≡ y)
snoc_injective [] [] x y e = (refl, cc)
snoc_injective [] (b ∷ []) x y e = cc
snoc_injective [] (b ∷ c ∷ ys) x y e = cc
snoc_injective (a ∷ []) [] x y e = cc
snoc_injective (a ∷ c ∷ xs) [] x y e = cc
snoc_injective (a ∷ xs) (b ∷ ys) x y e = let (p, q) = snoc_injective xs ys x y (cc) in (cc, q)

-- Two legacy channel names (requests, claim responses and streams of any methods) are equal only if
-- service, method, topics and kind all hold the same runes, where none of these is empty. Bytes that
-- are not UTF-8 all read as one rune.
pub legacy_channel_injective :
    (i j : RequestInfo) (kind sort : Text)
    → All NonEmpty (i.service ∷ i.method ∷ kind ∷ i.topic)
    → All NonEmpty (j.service ∷ j.method ∷ sort ∷ j.topic)
    → legacy_channel i kind ≡ legacy_channel j sort
    → (runes i.service ≡ runes j.service)
      × (runes i.method ≡ runes j.method)
      × (map runes i.topic ≡ map runes j.topic)
      × (runes kind ≡ runes sort)
legacy_channel_injective i j kind sort hi hj e =
    let (a, b) =
      joined-injective b'|' i.service j.service (i.method ∷ (i.topic ++ kind ∷ []))
        (j.method ∷ (j.topic ++ sort ∷ [])) (unfold is_channel_char in refl)
        (sym (legacy_channel-joined i kind hi.0 hi.1.0 hi.1.1.1 hi.1.1.0)
          ∙ e
          ∙ legacy_channel-joined j sort hj.0 hj.1.0 hj.1.1.1 hj.1.1.0) in
    let rest : map runes (i.topic ++ kind ∷ []) ≡ map runes (j.topic ++ sort ∷ []) = cc in
    let (c, d) =
      snoc_injective (map runes i.topic) (map runes j.topic) (runes kind) (runes sort) (
        sym (map-append runes i.topic (kind ∷ [])) ∙ rest ∙ map-append runes j.topic (sort ∷ [])) in
    (a, (cc), c, d)
