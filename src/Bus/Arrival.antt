-- ===== src/Bus/Arrival.antt =====
-- What is published is what a subscription's loop sends on.
use psrpc.Bus.Forward.{typed, forward_one, read_with, read_message, Read, forward}
use psrpc.Bus.Gunzip.{whole_fits, gunzip_is_capped, within}
use psrpc.Base.{
  ◌^◌, ◌<◌, ◌+◌, false, ◌∷◌, ap₂, map, [], List, ◌∙◌, ap, sym, true, min, refl, inr, inl, arith,
  leb, length, ltb, Bool-cases, if◌then◌else◌, some, none, ℕ, ◌≡◌, Option, Text, ok,
}
use psrpc.Bus.Compression.{
  get_bus_opts, CompressionOpts, compression_gzip, smaller, new_compressor, compression_none,
  compress, Compressor, decompress,
}
use psrpc.Bus.Serialization.{
  or_not_protobuf, read_value, read_content, envelope, decode_local_channel, deserialize,
  serialize_value, with_payload, serialize, compressor_of, Msg, Codec, Lawful, with_compressor,
}

-- What the constructor makes compresses with gzip.
data Gzips : Option Compressor → Type 0 where
  as_is : Gzips none
  gzips :
      (threshold level : ℕ)
      → Gzips
          (some (record { compression = compression_gzip; threshold = threshold; level = level }))

compressor_of-Gzips : (o : Option CompressionOpts) → Gzips (compressor_of o)
unfolding compressor_of new_compressor
compressor_of-Gzips o = elim (Bool-cases (leb (get_bus_opts o).quality 0)) [
  | inl h ↦ rw h as_is
  | inr h ↦ rw h (gzips (get_bus_opts o).threshold (min (get_bus_opts o).quality 9))
]

module _ {M : Type 0} (codec : Codec M) (law : Lawful codec) where
  compress-gzip :
      (c : Compressor) (src z : Text)
      → compress codec.gzip c src ≡ some z
      → codec.gzip c.level src ≡ some z
  unfolding compress smaller
  compress-gzip c src z h = through (codec.gzip c.level src) h
    where
      through :
          (o : Option Text)
          → (if ltb (length src) c.threshold then none else smaller codec.gzip src o) ≡ some z
          → o ≡ some z
      through none h = ground arith
      through (some buf) h = ground arith

  -- The payload of an envelope is read back, compressed or not.
  payload_back :
      (m : Msg) (max_size : ℕ) (threshold level : ℕ) (o : Option Text)
      → max_size + 1 < 2 ^ 63
      → m.compression ≡ compression_none
      → within (length m.value) max_size ≡ true
      → compress codec.gzip
          (record { compression = compression_gzip; threshold = threshold; level = level })
          m.value
        ≡ o
      → let n = with_payload codec m compression_gzip o in
        decompress codec.gunzip_reader n.value n.compression max_size ≡ ok m.value
  unfolding with_payload decompress
  payload_back m max_size threshold level none x n w h = rw n refl
  payload_back m max_size threshold level (some z) x n w h =
      (gunzip_is_capped codec.gunzip_reader z max_size m.value x).1 (
        rw
          (law.gzip_back level m.value z (
            compress-gzip
              (record { compression = compression_gzip; threshold = threshold; level = level })
              m.value z h))
          (whole_fits refl refl w))

  value_back :
      (m : Msg) (max_size : ℕ) (c : Option Compressor)
      → max_size + 1 < 2 ^ 63
      → Gzips c
      → m.compression ≡ compression_none
      → within (length m.value) max_size ≡ true
      → let n = with_compressor codec m c in
        decompress codec.gunzip_reader n.value n.compression max_size ≡ ok m.value
  unfolding with_compressor
  value_back m max_size none x as_is n w = unfold decompress in rw n refl
  value_back m max_size _ x (gzips threshold level) n w =
      payload_back m max_size threshold level
        (compress codec.gzip
          (record { compression = compression_gzip; threshold = threshold; level = level }) m.value)
        x n w refl

  -- Compression changes neither the type nor the channel.
  with_compressor-rest :
      (m : Msg) (c : Option Compressor)
      → ((with_compressor codec m c).type_url ≡ m.type_url)
        × ((with_compressor codec m c).channel ≡ m.channel)
  unfolding with_compressor with_payload
  with_compressor-rest m none = (refl, refl)
  with_compressor-rest m (some c) = kept (compress codec.gzip c m.value)
    where
      kept :
          (o : Option Text)
          → ((with_payload codec m c.compression o).type_url ≡ m.type_url)
            × ((with_payload codec m c.compression o).channel ≡ m.channel)
      kept none = (refl, refl)
      kept (some z) = (refl, refl)

  -- An envelope that was written is read back.
  envelope_back :
      (msg : M) (channel : Text) (c : Option Compressor) (max_size : ℕ) (value b : Text)
      → max_size + 1 < 2 ^ 63
      → Gzips c
      → codec.marshal msg ≡ some value
      → codec.marshal_msg (with_compressor codec (envelope codec msg channel value) c) ≡ some b
      → within (length value) max_size ≡ true
      → (deserialize codec b max_size ≡ ok msg) × (decode_local_channel codec b ≡ some channel)
  unfolding deserialize decode_local_channel envelope read_content read_value or_not_protobuf
  envelope_back msg channel c max_size value b x g m e w =
      let k = with_compressor-rest (envelope codec msg channel value) c in
      let n = with_compressor codec (envelope codec msg channel value) c in
      (
        ap (λ o. read_content codec o max_size) (law.content_back n b e)
            ∙ ap₂ (read_value codec) k.0
                (value_back (envelope codec msg channel value) max_size c x g refl w)
            ∙ ap (or_not_protobuf codec) (law.message_back msg value m),
        law.channel_back n b e ∙ ap some k.1,
      )

  -- A message that is published, with compression or without, is read back by a bus whose limit, if
  -- it has one, its encoding does not exceed and is below the greatest int64, and its local channel is read from the payload, if protobuf and gzip
  -- read back what they wrote.
  pub deserialize-serialize :
      (msg : M) (channel : Text) (opts : Option CompressionOpts) (max_size : ℕ) (value b : Text)
      → max_size + 1 < 2 ^ 63
      → codec.marshal msg ≡ some value
      → serialize codec msg channel (compressor_of opts) ≡ some b
      → within (length value) max_size ≡ true
      → (deserialize codec b max_size ≡ ok msg) × (decode_local_channel codec b ≡ some channel)
  unfolding serialize serialize_value deserialize decode_local_channel
  deserialize-serialize msg channel opts max_size value b x m s w =
      envelope_back msg channel (compressor_of opts) max_size value b x (compressor_of-Gzips opts) m
        (sym (ap (serialize_value codec msg channel (compressor_of opts)) m) ∙ s) w

  -- Messages and the reads of what was published for them.
  pub data Published (opts : Option CompressionOpts) (max_size : ℕ)
      : List M → List Read → Type 0 where
    published_none : Published opts max_size [] []
    published :
        {msgs : List M} {rs : List Read} (msg : M) (channel value b subject : Text)
        → codec.marshal msg ≡ some value
        → serialize codec msg channel (compressor_of opts) ≡ some b
        → within (length value) max_size ≡ true
        → Published opts max_size msgs rs
        → Published opts max_size
            (msg ∷ msgs)
            (record { payload = b; subject = subject; done = false } ∷ rs)

  -- Messages of one type that are published one after another, in any way that reading allows, are
  -- what a subscription to that type passes on, in order, if protobuf and gzip read back what they
  -- wrote, the subscription is not closed meanwhile and the limit is below the greatest int64.
  pub sent_messages_arrive :
      {N : Type 0} (as_type : M → Option N) (type_of : N → M) (opts : Option CompressionOpts)
      (max_size : ℕ) (msgs : List N) (rs : List Read)
      → max_size + 1 < 2 ^ 63
      → ((n : N) → as_type (type_of n) ≡ some n)
      → Published opts max_size (map type_of msgs) rs
      → forward (deserialize codec) as_type none max_size rs
        ≡ record { sent = msgs; stopped = false }
  unfolding forward read_message read_with
  sent_messages_arrive as_type type_of opts max_size [] _ x t published_none = refl
  sent_messages_arrive as_type type_of opts max_size (n ∷ msgs) _ x t
        (published msg channel value b subject m s w rest) =
      rw
        (
          (deserialize-serialize (type_of n) channel opts max_size value b x m s w).0,
          sent_messages_arrive as_type type_of opts max_size msgs _ x t rest,
        )
        (rw (t n) (unfold forward_one typed in refl))
