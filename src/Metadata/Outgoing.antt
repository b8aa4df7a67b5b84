-- ===== src/Metadata/Outgoing.antt =====
-- The metadata that is sent is what two layers of a map say, and to copy it never panics.
use psrpc.Base.{
  ◌≡◌, refl, sym, ap, ap₂, ◌∙◌, Bool, true, false, List, [], ◌∷◌, ◌++◌, Option, none, some, Text,
  if◌then◌else◌, list_beq, arith, text_comparable,
}
use psrpc.Base.Assoc.{lookup, insert, lookup-insert}
use psrpc.Metadata.{
  Metadata, CtxMd, Context, with_new_metadata, write_map, with_md, with_outgoing_metadata,
  appended_to, append_metadata, Copied, returns, write_pair, and_then, write_pairs, write_added,
  copy_of, outgoing_metadata,
}

-- What code does with a context's outgoing metadata.
pub data Change : Type 0 where
  resets adds : Metadata → Change
  appends : List Text → Change

unfoldable pub changed : Context → Change → Context
unfolding with_new_metadata with_outgoing_metadata append_metadata
changed ctx (resets md) = with_new_metadata ctx md
changed ctx (adds md) = with_outgoing_metadata ctx md
changed ctx (appends kv) = append_metadata ctx kv

-- The contexts made from one without values; the last change comes first.
unfoldable pub made_by : List Change → Context
unfolding changed
made_by [] = record { header = none; outgoing = none }
made_by (c ∷ cs) = changed (made_by cs) c

abbrev pub value_in : Metadata → Text → Option Text
value_in none k = none
value_in (some m) k = lookup m k

abbrev pub or_else : Option Text → Option Text → Option Text
or_else none y = y
or_else (some x) y = some x

-- The value that the last pair with this key has.
unfoldable pub paired : List Text → Text → Option Text
paired [] k = none
paired (j ∷ []) k = none
paired (j ∷ v ∷ kv) k = or_else (paired kv k) (if list_beq j k then some v else none)

-- The specification: what was appended since the last reset wins over what was added since, and of
-- each the later wins.
unfoldable pub appended : List Change → Text → Option Text
unfolding paired
appended [] k = none
appended (resets md ∷ cs) k = none
appended (adds md ∷ cs) k = appended cs k
appended (appends kv ∷ cs) k = or_else (paired kv k) (appended cs k)

unfoldable pub given : List Change → Text → Option Text
given [] k = none
given (resets md ∷ cs) k = value_in md k
given (adds md ∷ cs) k = or_else (value_in md k) (given cs k)
given (appends kv ∷ cs) k = given cs k

-- The values in a slice of slices, the last one first.
unfoldable pub last_of : List (List Text) → Text → Option Text
unfolding paired
last_of [] k = none
last_of (a ∷ added) k = or_else (last_of added k) (paired a k)

-- A context's value holds the two layers, and none is appended over a nil map.
pub data Holds : Option CtxMd → (Text → Option Text) → (Text → Option Text) → Type 0 where
  holds_none :
      {g a : Text → Option Text}
      → ((k : Text) → g k ≡ none)
      → ((k : Text) → a k ≡ none)
      → Holds none g a
  holds_nil :
      {g a : Text → Option Text}
      → ((k : Text) → g k ≡ none)
      → ((k : Text) → a k ≡ none)
      → Holds (some (record { md = none; added = [] })) g a
  holds_map :
      {m : List (Text × Text)} {added : List (List Text)} {g a : Text → Option Text}
      → ((k : Text) → g k ≡ lookup m k)
      → ((k : Text) → a k ≡ last_of added k)
      → Holds (some (record { md = some m; added = added })) g a

or_else-none : (x : Option Text) → or_else x none ≡ x
or_else-none none = refl
or_else-none (some x) = refl

or_else_assoc : (x y z : Option Text) → or_else (or_else x y) z ≡ or_else x (or_else y z)
or_else_assoc none y z = refl
or_else_assoc (some x) y z = refl

lookup-write_map :
    (m es : List (Text × Text)) (k : Text)
    → lookup (write_map m es) k ≡ or_else (lookup es k) (lookup m k)
unfolding write_map lookup
lookup-write_map m [] k = refl
lookup-write_map m ((j, v) ∷ es) k =
    ground (arith, lookup-insert (write_map m es) j v k, lookup-write_map m es k)

last_of-append :
    (added : List (List Text)) (kv : List Text) (k : Text)
    → last_of (added ++ kv ∷ []) k ≡ or_else (paired kv k) (last_of added k)
unfolding last_of
last_of-append [] kv k = sym (or_else-none (paired kv k))
last_of-append (a ∷ added) kv k =
    ap (λ x. or_else x (paired a k)) (last_of-append added kv k)
    ∙ or_else_assoc (paired kv k) (last_of added k) (paired a k)

-- A map is written to without a panic, and holds the pairs over what it held.
pub data Wrote : Copied → List (Text × Text) → (Text → Option Text) → Type 0 where
  wrote :
      {m : List (Text × Text)} {before : List (Text × Text)} {over : Text → Option Text}
      → ((k : Text) → lookup m k ≡ or_else (over k) (lookup before k))
      → Wrote (returns (some m)) before over

Wrote-rest :
    (f : Text → Option Text) {c : Copied} {m n : List (Text × Text)} {g : Text → Option Text}
    → ((k : Text) → lookup n k ≡ or_else (f k) (lookup m k))
    → Wrote c n g
    → Wrote c m (λ k. or_else (g k) (f k))
Wrote-rest f {m} {g} h (wrote w) =
    wrote (λ k. w k ∙ ap (or_else (g k)) (h k) ∙ sym (or_else_assoc (g k) (f k) (lookup m k)))

Wrote-and_then :
    (f : Text → Option Text) (rest : Metadata → Copied) {c : Copied} {m : List (Text × Text)}
    {g : Text → Option Text}
    → Wrote c m f
    → ((n : List (Text × Text)) → Wrote (rest (some n)) n g)
    → Wrote (and_then c rest) m (λ k. or_else (g k) (f k))
Wrote-and_then f rest (wrote {m = n} h) r = Wrote-rest f h (r n)

pair_first :
    (b : Bool) (v : Text) (x : Option Text)
    → (if b then some v else x) ≡ or_else (if b then some v else none) x
pair_first true v x = refl
pair_first false v x = refl

lookup_write-pairs :
    (m : List (Text × Text)) (kv : List Text) → Wrote (write_pairs (some m) kv) m (paired kv)
unfolding write_pairs write_pair paired
lookup_write-pairs m [] = wrote (λ k. refl)
lookup_write-pairs m (j ∷ []) = wrote (λ k. refl)
lookup_write-pairs m (j ∷ v ∷ kv) =
    Wrote-rest (λ k. if list_beq j k then some v else none)
      (λ k. lookup-insert m j v k ∙ pair_first (list_beq j k) v (lookup m k))
      (lookup_write-pairs (insert m j v) kv)

lookup_write-added :
    (m : List (Text × Text)) (added : List (List Text))
    → Wrote (write_added (some m) added) m (last_of added)
unfolding write_added last_of
lookup_write-added m [] = wrote (λ k. refl)
lookup_write-added m (a ∷ added) =
    Wrote-and_then (paired a) (λ c. write_added c added) (lookup_write-pairs m a)
      (λ n. lookup_write-added n added)

-- What a copy says about each key, and that it did not panic.
pub data Says : Copied → (Text → Option Text) → Type 0 where
  says :
      {m : Metadata} {f : Text → Option Text}
      → ((k : Text) → value_in m k ≡ f k)
      → Says (returns m) f

Wrote-Says :
    {c : Copied} {m : List (Text × Text)} {over f : Text → Option Text}
    → ((k : Text) → f k ≡ or_else (over k) (lookup m k))
    → Wrote c m over
    → Says c f
Wrote-Says h (wrote w) = says (λ k. w k ∙ sym (h k))

copy_of-Says :
    {c : Option CtxMd} {g a : Text → Option Text}
    → Holds c g a
    → Says (copy_of c) (λ k. or_else (a k) (g k))
unfolding copy_of
copy_of-Says (holds_none hg ha) = says {m = none} (λ k. sym (ap₂ or_else (ha k) (hg k)))
copy_of-Says (holds_nil hg ha) =
    unfold write_added in says {m = none} (λ k. sym (ap₂ or_else (ha k) (hg k)))
copy_of-Says (holds_map {m} {added} hg ha) =
    Wrote-Says (λ k. ap₂ or_else (ha k) (hg k)) (lookup_write-added m added)

nothing_last : (k : Text) → none ≡ last_of [] k
nothing_last k = unfold last_of in refl

nothing_in : (k : Text) → none ≡ lookup {K = Text} {V = Text} [] k
nothing_in k = unfold lookup in refl

alone :
    (kv : List Text) (k : Text) {x : Option Text}
    → x ≡ none
    → or_else (paired kv k) x ≡ last_of ([] ++ kv ∷ []) k
alone kv k h = ap (or_else (paired kv k)) (h ∙ nothing_last k) ∙ sym (last_of-append [] kv k)

Holds-with_md :
    {c : Option CtxMd} {g a : Text → Option Text} (es : List (Text × Text))
    → Holds c g a
    → Holds (some (with_md c es)) (λ k. or_else (lookup es k) (g k)) a
unfolding with_md
Holds-with_md es (holds_none hg ha) =
    holds_map (λ k. rw (hg k) (or_else-none (lookup es k))) (λ k. ha k ∙ nothing_last k)
Holds-with_md es (holds_nil hg ha) =
    holds_map (λ k. rw (hg k) (or_else-none (lookup es k))) (λ k. ha k ∙ nothing_last k)
Holds-with_md es (holds_map {m} hg ha) =
    holds_map (λ k. rw (hg k) (sym (lookup-write_map m es k))) ha

Holds-appended :
    {c : Option CtxMd} {g a : Text → Option Text} (kv : List Text)
    → Holds c g a
    → Holds
        (some (record (appended_to c) { added = (appended_to c).added ++ kv ∷ [] }))
        g
        (λ k. or_else (paired kv k) (a k))
unfolding appended_to
Holds-appended kv (holds_none hg ha) = holds_map (λ k. hg k ∙ nothing_in k) (λ k. alone kv k (ha k))
Holds-appended kv (holds_nil hg ha) = holds_map (λ k. hg k ∙ nothing_in k) (λ k. alone kv k (ha k))
Holds-appended kv (holds_map {added} hg ha) =
    holds_map hg (λ k. rw (ha k) (sym (last_of-append added kv k)))

made_by-Holds : (cs : List Change) → Holds (made_by cs).outgoing (given cs) (appended cs)
unfolding made_by changed with_new_metadata with_outgoing_metadata append_metadata given appended
    paired lookup
made_by-Holds [] = holds_none (λ k. refl) (λ k. refl)
made_by-Holds (resets none ∷ cs) = holds_nil (λ k. refl) (λ k. refl)
made_by-Holds (resets (some m) ∷ cs) = holds_map (λ k. refl) (λ k. nothing_last k)
made_by-Holds (adds none ∷ cs) = made_by-Holds cs
made_by-Holds (adds (some []) ∷ cs) = made_by-Holds cs
made_by-Holds (adds (some (e ∷ es)) ∷ cs) = Holds-with_md (e ∷ es) (made_by-Holds cs)
made_by-Holds (appends [] ∷ cs) = made_by-Holds cs
made_by-Holds (appends (x ∷ kv) ∷ cs) = Holds-appended (x ∷ kv) (made_by-Holds cs)

-- However a context's outgoing metadata was made, copying it does not panic, and each key has the
-- value that was appended last since the last reset, or else the one added last since then.
pub copied_values_are_last :
    (cs : List Change)
    → Says (outgoing_metadata (made_by cs)) (λ k. or_else (appended cs k) (given cs k))
unfolding outgoing_metadata
copied_values_are_last cs = copy_of-Says (made_by-Holds cs)
