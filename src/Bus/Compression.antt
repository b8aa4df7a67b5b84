-- ===== src/Bus/Compression.antt =====
-- options.go and compression.go: when a payload is compressed, and how it is read back. Gzip itself
-- is a library. Go's integers that are negative are like 0 here,
-- and none is above the greatest int64.
use psrpc.Base.{
  ℕ, ◌+◌, ◌%◌, ◌^◌, Bool, ◌&&◌, Option, none, some, Text, if◌then◌else◌, ltb, leb, min, length,
  take, Result, ok, failed,
}

pub record CompressionOpts : Type 0 where
  pub quality : ℕ
  pub threshold : ℕ
  pub max_decompressed_size : ℕ

abbrev pub default_compression_threshold : ℕ
default_compression_threshold = 1024

-- getBusOpts, after the last option that sets it.
unfoldable pub get_bus_opts : Option CompressionOpts → CompressionOpts
get_bus_opts none = record {
  quality = 0;
  threshold = default_compression_threshold;
  max_decompressed_size = 0;
}
get_bus_opts (some o) =
    if leb o.threshold 0 then record o { threshold = default_compression_threshold } else o

-- Compression of internal.proto.
pub data Compression : Type 0 where
  compression_none compression_gzip : Compression
  compression_other : ℕ → Compression

-- compressor; its pools of writers and buffers keep nothing that matters here.
pub record Compressor : Type 0 where
  pub compression : Compression
  pub threshold : ℕ
  pub level : ℕ

abbrev pub best_compression : ℕ
best_compression = 9

unfoldable pub new_compressor : CompressionOpts → Option Compressor
new_compressor o =
    if leb o.quality 0
    then none
    else some (record {
      compression = compression_gzip;
      threshold = o.threshold;
      level = min o.quality best_compression;
    })

-- The gzip writer at a level: its output, unless a write fails.
module _ (gzip : ℕ → Text → Option Text) where
  -- The output that is worth sending.
  unfoldable pub smaller : Text → Option Text → Option Text
  smaller src none = none
  smaller src (some buf) = if leb (length src) (length buf) then none else some buf

  unfoldable pub compress : Compressor → Text → Option Text
  unfolding smaller
  compress c src = if ltb (length src) c.threshold then none else smaller src (gzip c.level src)

-- What a gzip reader yields: bytes, and whether their end is that of the data and no error.
pub record Unzipped : Type 0 where
  pub bytes : Text
  pub whole : Bool

-- Why a payload is not read.
pub data ReadError : Type 0 where
  bad_gzip : ReadError
  exceeds unrecognized : ℕ → ReadError

-- io.ReadAll of the reader, and of io.LimitReader over it, which ends after so many bytes.
unfoldable pub read_all : Unzipped → Result ReadError Text
read_all c = if c.whole then ok c.bytes else failed bad_gzip

unfoldable pub read_limited : Unzipped → ℕ → Result ReadError Text
unfolding read_all
read_limited c n = if leb n (length c.bytes) then ok (take n c.bytes) else read_all c

-- int64(maxSize)+1, which wraps around to the least int64 at the greatest: a LimitReader with a limit
-- that is not positive yields nothing, as with 0.
unfoldable pub read_limit : ℕ → ℕ
read_limit max_size = let n = (max_size + 1) % 2 ^ 64 in if ltb n (2 ^ 63) then n else 0

unfoldable pub checked : ℕ → Result ReadError Text → Result ReadError Text
checked max_size (failed e) = failed e
checked max_size (ok out) =
    if ltb 0 max_size && ltb max_size (length out) then failed (exceeds max_size) else ok out

-- A reader for these bytes, unless their header is bad.
module _ (gunzip_reader : Text → Option Unzipped) where
  unfoldable pub gunzip_from : Option Unzipped → ℕ → Result ReadError Text
  unfolding read_all read_limited read_limit checked
  gunzip_from none max_size = failed bad_gzip
  gunzip_from (some r) max_size =
      checked max_size (if ltb 0 max_size then read_limited r (read_limit max_size) else read_all r)

  unfoldable pub gunzip : Text → ℕ → Result ReadError Text
  unfolding gunzip_from
  gunzip src max_size = gunzip_from (gunzip_reader src) max_size

  unfoldable pub decompress : Text → Compression → ℕ → Result ReadError Text
  unfolding gunzip
  decompress src compression_none max_size = ok src
  decompress src compression_gzip max_size = gunzip src max_size
  decompress src (compression_other n) max_size = failed (unrecognized n)
