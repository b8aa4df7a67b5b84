-- ===== src/Bus/Serialization.antt =====
-- serialization.go and bus.go: what is published for a message, and what is read of it. A message's
-- type and its encoding are protobuf's, as is that of the three shapes of an envelope.
use psrpc.Base.{ℕ, ◌≡◌, true, ◌++◌, Option, none, some, Text, text, Result, ok, failed}
use psrpc.Bus.Compression.{
  CompressionOpts, get_bus_opts, Compression, compression_none, Compressor, new_compressor,
  compress, Unzipped, ReadError, decompress,
}

-- Msg of internal.proto.
pub record Msg : Type 0 where
  pub type_url : Text
  pub value : Text
  pub channel : Text
  pub compression : Compression

-- Content of internal.proto: an envelope without its channel.
pub record Content : Type 0 where
  pub type_url : Text
  pub value : Text
  pub compression : Compression

-- Protobuf and gzip, as the code calls them: the bytes of a message and its full name, the bytes of
-- an envelope, what is read of them, and the message of a type with a value.
pub record Codec (M : Type 0) : Type 0 where
  pub marshal : M → Option Text
  pub full_name : M → Text
  pub marshal_msg : Msg → Option Text
  pub unmarshal_content : Text → Option Content
  pub unmarshal_channel : Text → Option Text
  pub unmarshal_new : Text → Text → Option M
  pub gzip : ℕ → Text → Option Text
  pub gunzip_reader : Text → Option Unzipped

-- What a read fails with: protobuf, or the payload.
pub data Unread : Type 0 where
  not_protobuf : Unread
  not_payload : ReadError → Unread

-- New: the compressor that a bus with these options has.
unfoldable pub compressor_of : Option CompressionOpts → Option Compressor
compressor_of o = new_compressor (get_bus_opts o)

module _ {M : Type 0} (codec : Codec M) where
  -- The envelope, with its value compressed or as it is.
  unfoldable pub with_payload : Msg → Compression → Option Text → Msg
  with_payload m compression none = m
  with_payload m compression (some buf) = record m { value = buf; compression = compression }

  unfoldable pub with_compressor : Msg → Option Compressor → Msg
  unfolding with_payload
  with_compressor m none = m
  with_compressor m (some c) = with_payload m c.compression (compress codec.gzip c m.value)

  unfoldable pub envelope : M → Text → Text → Msg
  envelope msg channel value = record {
    type_url = text "type.googleapis.com/" ++ codec.full_name msg;
    value = value;
    channel = channel;
    compression = compression_none;
  }

  unfoldable pub serialize_value : M → Text → Option Compressor → Option Text → Option Text
  unfolding with_compressor envelope
  serialize_value msg channel c none = none
  serialize_value msg channel c (some value) =
      codec.marshal_msg (with_compressor (envelope msg channel value) c)

  unfoldable pub serialize : M → Text → Option Compressor → Option Text
  unfolding serialize_value
  serialize msg channel c = serialize_value msg channel c (codec.marshal msg)

  unfoldable pub decode_local_channel : Text → Option Text
  decode_local_channel b = codec.unmarshal_channel b

  unfoldable pub or_not_protobuf : Option M → Result Unread M
  or_not_protobuf none = failed not_protobuf
  or_not_protobuf (some m) = ok m

  unfoldable pub read_value : Text → Result ReadError Text → Result Unread M
  unfolding or_not_protobuf
  read_value type_url (failed e) = failed (not_payload e)
  read_value type_url (ok value) = or_not_protobuf (codec.unmarshal_new type_url value)

  unfoldable pub read_content : Option Content → ℕ → Result Unread M
  unfolding read_value
  read_content none max_size = failed not_protobuf
  read_content (some m) max_size =
      read_value m.type_url (decompress codec.gunzip_reader m.value m.compression max_size)

  unfoldable pub deserialize : Text → ℕ → Result Unread M
  unfolding read_content
  deserialize b max_size = read_content (codec.unmarshal_content b) max_size

abbrev pub content_of : Msg → Content
content_of m = record { type_url = m.type_url; value = m.value; compression = m.compression }

-- What protobuf and gzip are relied on for: what was written is read back.
pub record Lawful {M : Type 0} (codec : Codec M) : Type 0 where
  pub content_back :
      (m : Msg) (b : Text)
      → codec.marshal_msg m ≡ some b
      → codec.unmarshal_content b ≡ some (content_of m)
  pub channel_back :
      (m : Msg) (b : Text)
      → codec.marshal_msg m ≡ some b
      → codec.unmarshal_channel b ≡ some m.channel
  pub message_back :
      (msg : M) (value : Text)
      → codec.marshal msg ≡ some value
      → codec.unmarshal_new (text "type.googleapis.com/" ++ codec.full_name msg) value ≡ some msg
  pub gzip_back :
      (level : ℕ) (src z : Text)
      → codec.gzip level src ≡ some z
      → codec.gunzip_reader z ≡ some (record { bytes = src; whole = true })
