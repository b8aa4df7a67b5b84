-- ===== src/Metadata.antt =====
-- pkg/metadata/metadata.go: the metadata that a context carries. A map's keys are distinct, and the
-- order in which `range` goes over them is Go's: here the last entry is written first, so that a
-- list that names a key twice is read the same way as `lookup` reads it.
pub mod Outgoing
mod Tests
use psrpc.Base.{ℕ, List, [], ◌∷◌, ◌++◌, Option, none, some, Text, text_comparable}
use psrpc.Base.Assoc.{lookup, insert}

-- Metadata; a nil map is `none`.
abbrev pub Metadata : Type 0
Metadata = Option (List (Text × Text))

pub record Header : Type 0 where
  pub remote_id : Text
  pub sent_at : ℕ
  pub metadata : Metadata

-- ctxMD.
pub record CtxMd : Type 0 where
  pub md : Metadata
  pub added : List (List Text)

-- What a context holds under the two keys of this package.
pub record Context : Type 0 where
  pub header : Option Header
  pub outgoing : Option CtxMd

unfoldable pub with_incoming_header : Context → Header → Context
with_incoming_header ctx head = record ctx { header = some head }

unfoldable pub incoming_header : Context → Option Header
incoming_header ctx = ctx.header

unfoldable pub with_new_metadata : Context → Metadata → Context
with_new_metadata ctx md = record ctx { outgoing = some (record { md = md; added = [] }) }

-- `m.md[k] = v` for each entry of the second map.
unfoldable pub write_map : List (Text × Text) → List (Text × Text) → List (Text × Text)
write_map m [] = m
write_map m ((k, v) ∷ es) = insert (write_map m es) k v

-- The value of WithOutgoingMetadata, from the one that was there.
unfoldable pub with_md : Option CtxMd → List (Text × Text) → CtxMd
unfolding write_map
with_md none es = record { md = some es; added = [] }
with_md (some c) es = over c c.md es
  where
    over : CtxMd → Metadata → List (Text × Text) → CtxMd
    over c none es = record c { md = some es }
    over c (some m) es = record c { md = some (write_map m es) }

unfoldable pub with_outgoing_metadata : Context → Metadata → Context
unfolding with_md
with_outgoing_metadata ctx none = ctx
with_outgoing_metadata ctx (some []) = ctx
with_outgoing_metadata ctx (some (e ∷ es)) = record ctx {
  outgoing = some (with_md ctx.outgoing (e ∷ es));
}

-- `md` of AppendMetadataToOutgoingContext: what it appends to.
unfoldable pub appended_to : Option CtxMd → CtxMd
appended_to none = record { md = some []; added = [] }
appended_to (some c) = with_map c c.md
  where
    with_map : CtxMd → Metadata → CtxMd
    with_map c none = record { md = some []; added = [] }
    with_map c (some m) = c

unfoldable pub append_metadata : Context → List Text → Context
unfolding appended_to
append_metadata ctx [] = ctx
append_metadata ctx (a ∷ kv) =
    let c = appended_to ctx.outgoing in
    record ctx { outgoing = some (record c { added = c.added ++ (a ∷ kv) ∷ [] }) }

-- What a copy returns, or a panic on a write to a nil map.
pub data Copied : Type 0 where
  panics : Copied
  returns : Metadata → Copied

-- `clone[k] = v`, where the rest of the loop goes on with the map.
unfoldable pub write_pair : Metadata → Text → Text → Copied
write_pair none k v = panics
write_pair (some m) k v = returns (some (insert m k v))

abbrev pub and_then : Copied → (Metadata → Copied) → Copied
and_then panics rest = panics
and_then (returns m) rest = rest m

-- The pairs of one slice; a last string without a value is skipped.
unfoldable pub write_pairs : Metadata → List Text → Copied
unfolding write_pair
write_pairs clone [] = returns clone
write_pairs clone (k ∷ []) = returns clone
write_pairs clone (k ∷ v ∷ kv) = and_then (write_pair clone k v) (λ c. write_pairs c kv)

unfoldable pub write_added : Metadata → List (List Text) → Copied
unfolding write_pairs
write_added clone [] = returns clone
write_added clone (a ∷ added) = and_then (write_pairs clone a) (λ c. write_added c added)

unfoldable pub copy_of : Option CtxMd → Copied
unfolding write_added
copy_of none = returns none
copy_of (some c) = write_added c.md c.added

unfoldable pub outgoing_metadata : Context → Copied
unfolding copy_of
outgoing_metadata ctx = copy_of ctx.outgoing
