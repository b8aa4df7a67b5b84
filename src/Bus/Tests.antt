-- ===== src/Bus/Tests.antt =====
-- Runs of a bus: a codec that writes a message's bytes as they are, and a gzip that writes runs of
-- zeros as their number.
use psrpc.Bus.Gunzip.{gunzip_is_capped, Fits}
use psrpc.Bus.Arrival.{published_none, published, deserialize-serialize, sent_messages_arrive}
use psrpc.Bus.Forward.{forward, Read}
use psrpc.Bus.Serialization.{
  not_payload, decode_local_channel, deserialize, compressor_of, content_of, Msg, Lawful, serialize,
  Codec, Content,
}
use psrpc.Bus.Compression.{
  compress, get_bus_opts, new_compressor, exceeds, unrecognized, decompress, gunzip,
  compression_gzip, compression_none, compression_other, Compression, CompressionOpts, Unzipped,
}
use psrpc.Base.{
  ◌-◌, arith, ◌^◌, text_eq_iff, ◌↔◌, some-injective, zero, suc, ◌∙◌, sym, ap, ◌++◌, suc, length,
  list_beq, nat_beq, if◌then◌else◌, ℕ, ◌≡◌, refl, Bool, true, false, [], ◌∷◌, Option, none, some,
  Text, text, ok, failed,
}

abbrev opts : CompressionOpts
opts = record { quality = 12; threshold = 3; max_decompressed_size = 5 }

-- Gzip for the tests: it writes four zeros as one 4.
unfoldable short : ℕ → Text → Option Text
short level src = if list_beq src (0 ∷ 0 ∷ 0 ∷ 0 ∷ []) then some (4 ∷ []) else some (5 ∷ src)

unfoldable long : Text → Option Unzipped
long [] = none
long (x ∷ xs) =
    if nat_beq x 4
    then some (record { bytes = 0 ∷ 0 ∷ 0 ∷ 0 ∷ []; whole = true })
    else some (record { bytes = xs; whole = nat_beq x 5 })

-- The first so many elements, and the others.
unfoldable cut : ℕ → Text → Text × Text
cut zero xs = ([], xs)
cut (suc n) [] = ([], [])
cut (suc n) (x ∷ xs) = let rest = cut n xs in (x ∷ rest.0, rest.1)

cut-append : (xs ys : Text) → cut (length xs) (xs ++ ys) ≡ (xs, ys)
unfolding cut
cut-append [] ys = refl
cut-append (x ∷ xs) ys = rw (cut-append xs ys) refl

unfoldable number_of : Compression → ℕ
number_of compression_none = 0
number_of compression_gzip = 1
number_of (compression_other n) = suc (suc n)

unfoldable numbered : ℕ → Compression
numbered zero = compression_none
numbered (suc zero) = compression_gzip
numbered (suc (suc n)) = compression_other n

numbered-number_of : (c : Compression) → numbered (number_of c) ≡ c
unfolding numbered number_of
numbered-number_of compression_none = refl
numbered-number_of compression_gzip = refl
numbered-number_of (compression_other n) = refl

unfoldable with_length : Text → Text → Text
with_length xs rest = length xs ∷ xs ++ rest

unfoldable parts : Text → Text × Text
unfolding cut
parts [] = ([], [])
parts (n ∷ xs) = cut n xs

parts-with_length : (xs rest : Text) → parts (with_length xs rest) ≡ (xs, rest)
unfolding parts with_length
parts-with_length xs rest = cut-append xs rest

-- An envelope as bytes: its compression, and its parts with their lengths.
unfoldable written : Msg → Text
unfolding number_of with_length
written m = number_of m.compression ∷ with_length m.type_url (with_length m.value m.channel)

unfoldable content_read : Text → Option Content
unfolding parts numbered
content_read [] = none
content_read (c ∷ b) =
    some
      (record { type_url = (parts b).0; value = (parts (parts b).1).0; compression = numbered c })

unfoldable channel_read : Text → Option Text
unfolding parts
channel_read [] = none
channel_read (c ∷ b) = some (parts (parts b).1).1

content_read-written : (m : Msg) → content_read (written m) ≡ some (content_of m)
unfolding content_read written
content_read-written m =
    rw (parts-with_length m.type_url (with_length m.value m.channel))
      (rw (parts-with_length m.value m.channel, numbered-number_of m.compression) refl)

channel_read-written : (m : Msg) → channel_read (written m) ≡ some m.channel
unfolding channel_read written
channel_read-written m =
    rw (parts-with_length m.type_url (with_length m.value m.channel))
      (rw (parts-with_length m.value m.channel) refl)

long-short :
    (level : ℕ) (src z : Text)
    → short level src ≡ some z
    → long z ≡ some (record { bytes = src; whole = true })
unfolding long short
long-short level src z h = by_kind (list_beq src (0 ∷ 0 ∷ 0 ∷ 0 ∷ [])) refl h
  where
    by_kind :
        (b : Bool)
        → list_beq src (0 ∷ 0 ∷ 0 ∷ 0 ∷ []) ≡ b
        → (if b then some (4 ∷ []) else some (5 ∷ src)) ≡ some z
        → long z ≡ some (record { bytes = src; whole = true })
    by_kind true e k =
        ap long (sym (some-injective k))
        ∙ ap (λ s. some (record { bytes = s; whole = true }))
            (sym ((text_eq_iff src (0 ∷ 0 ∷ 0 ∷ 0 ∷ [])).0 e))
    by_kind false e k = ap long (sym (some-injective k))

abbrev value_of : Option Content → Text
value_of none = []
value_of (some c) = c.value

-- Messages that are their own bytes.
abbrev plain : Codec Text
plain = record {
  marshal = λ m. some m;
  full_name = λ m. text "m";
  marshal_msg = λ m. some (written m);
  unmarshal_content = content_read;
  unmarshal_channel = channel_read;
  unmarshal_new = λ url v. some v;
  gzip = short;
  gunzip_reader = long;
}

plain-Lawful : Lawful plain
plain-Lawful = record {
  content_back = λ m b h. ap content_read (some-injective (sym h)) ∙ content_read-written m;
  channel_back = λ m b h. ap channel_read (some-injective (sym h)) ∙ channel_read-written m;
  message_back = λ msg value h. sym h;
  gzip_back = long-short;
}

abbrev zeros : Text
zeros = 0 ∷ 0 ∷ 0 ∷ 0 ∷ []

-- What is published for a message on the channel `c`.
unfoldable published_for : Text → Text
unfolding serialize compressor_of
published_for m = elim (serialize plain m (text "c") (compressor_of (some opts))) [
  | none ↦ []
  | some b ↦ b
]

-- Four zeros are compressed; two bytes are below the threshold.
zeros_are_compressed : value_of (content_read (published_for zeros)) ≡ 4 ∷ []
unfolding published_for serialize content_read written new_compressor get_bus_opts compress short
zeros_are_compressed = refl

ones_are_not : value_of (content_read (published_for (1 ∷ 1 ∷ []))) ≡ 1 ∷ 1 ∷ []
unfolding published_for serialize content_read written new_compressor get_bus_opts compress
ones_are_not = refl

-- A limit of three bytes refuses four zeros, also where they came compressed.
zeros_exceed : deserialize plain (published_for zeros) 3 ≡ failed (not_payload (exceeds 3))
unfolding published_for serialize deserialize content_read written decompress new_compressor
    get_bus_opts compress short long
zeros_exceed = refl

bad_compression : decompress long (1 ∷ []) (compression_other 7) 0 ≡ failed (unrecognized 7)
unfolding decompress
bad_compression = refl

-- At the greatest int64 the limit wraps around, and a content is read as empty.
greatest_limit_reads_nothing : gunzip long (4 ∷ []) (2 ^ 63 - 1) ≡ ok []
unfolding gunzip long
greatest_limit_reads_nothing = refl

gunzip_is_capped_example : (gunzip long (4 ∷ []) 4 ≡ ok zeros) ↔ Fits 4 zeros (long (4 ∷ []))
gunzip_is_capped_example = gunzip_is_capped long (4 ∷ []) 4 zeros (ground arith)

zeros_come_back :
    (deserialize plain (published_for zeros) 4 ≡ ok zeros)
    × (decode_local_channel plain (published_for zeros) ≡ some (text "c"))
unfolding published_for serialize
zeros_come_back =
    deserialize-serialize plain plain-Lawful zeros (text "c") (some opts) 4 zeros
      (published_for zeros) (ground arith) refl refl refl

abbrev read_of : Text → Read
read_of m = record { payload = published_for m; subject = []; done = false }

sent_messages_arrive_example :
    forward (deserialize plain) (λ m. some m) none 4 (read_of zeros ∷ read_of (1 ∷ 1 ∷ []) ∷ [])
    ≡ record { sent = zeros ∷ (1 ∷ 1 ∷ []) ∷ []; stopped = false }
unfolding published_for serialize
sent_messages_arrive_example =
    sent_messages_arrive plain plain-Lawful (λ m. some m) (λ m. m) (some opts) 4
      (zeros ∷ (1 ∷ 1 ∷ []) ∷ []) (read_of zeros ∷ read_of (1 ∷ 1 ∷ []) ∷ []) (ground arith)
      (λ m. refl)
      (published zeros (text "c") zeros (published_for zeros) [] refl refl refl (
        published (1 ∷ 1 ∷ []) (text "c") (1 ∷ 1 ∷ []) (published_for (1 ∷ 1 ∷ [])) [] refl refl
          refl published_none))
