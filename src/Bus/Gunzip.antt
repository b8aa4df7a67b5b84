-- ===== src/Bus/Gunzip.antt =====
-- What gunzip returns: the whole content, within the limit, or an error.
use psrpc.Base.{
  ℕ, ◌+◌, ◌^◌, ◌≡◌, ap, ◌∙◌, Bool, true, ◌||◌, Option, none, some, Text, if◌then◌else◌, ltb, leb,
  length, length-take, ok, arith, ◌<◌, ◌↔◌,
}
use psrpc.Bus.Compression.{
  Unzipped, read_all, read_limited, read_limit, checked, gunzip_from, gunzip, compress, smaller,
  Compressor,
}

-- The limit, where there is one, holds of a size.
abbrev pub within : ℕ → ℕ → Bool
within n max_size = leb n max_size || leb max_size 0

-- Short of the greatest int64, one byte more than the limit is read.
read_limit-below : (max_size : ℕ) → max_size + 1 < 2 ^ 63 → read_limit max_size ≡ max_size + 1
unfolding read_limit
read_limit-below max_size m = ground (arith, m)

fits :
    (c : Unzipped) (max_size : ℕ)
    → max_size + 1 < 2 ^ 63
    → c.whole ≡ true
    → within (length c.bytes) max_size ≡ true
    → checked max_size (if ltb 0 max_size then read_limited c (read_limit max_size) else read_all c)
      ≡ ok c.bytes
unfolding checked read_limited read_all
fits c max_size m w h =
    rw (read_limit-below max_size m) (ground (arith, w, h, length-take (max_size + 1) c.bytes))

-- An ok result is the whole content, and within the limit.
pub data Fits (max_size : ℕ) (out : Text) : Option Unzipped → Type 0 where
  whole_fits :
      {r : Unzipped}
      → r.whole ≡ true
      → r.bytes ≡ out
      → within (length out) max_size ≡ true
      → Fits max_size out (some r)

cut :
    (c : Unzipped) (max_size : ℕ) (out : Text)
    → max_size + 1 < 2 ^ 63
    → checked max_size (if ltb 0 max_size then read_limited c (read_limit max_size) else read_all c)
      ≡ ok out
    → (c.whole ≡ true) × (c.bytes ≡ out) × (within (length out) max_size ≡ true)
unfolding checked read_limited read_all
cut c max_size out m h =
    let k = rw (read_limit-below max_size m) at h in
    ground (arith, k, length-take (max_size + 1) c.bytes)

module _ (gunzip_reader : Text → Option Unzipped) where
  Fits-result :
      (max_size : ℕ) (out : Text) (r : Option Unzipped)
      → max_size + 1 < 2 ^ 63
      → Fits max_size out r
      → gunzip_from gunzip_reader r max_size ≡ ok out
  unfolding gunzip_from
  Fits-result max_size out none m h = elim h [ ]
  Fits-result max_size out (some c) m (whole_fits w b h) =
      fits c max_size m w (ap (λ o. within (length o) max_size) b ∙ h) ∙ ap ok b

  result-Fits :
      (max_size : ℕ) (out : Text) (r : Option Unzipped)
      → max_size + 1 < 2 ^ 63
      → gunzip_from gunzip_reader r max_size ≡ ok out
      → Fits max_size out r
  unfolding gunzip_from
  result-Fits max_size out none m h = cc
  result-Fits max_size out (some c) m h = let k = cut c max_size out m h in whole_fits k.0 k.1 k.2

  -- gunzip returns bytes exactly where they are the whole content of the data, which ends without an
  -- error, and are no more than maxSize, if that is not 0, and maxSize is below the
  -- greatest int64.
  pub gunzip_is_capped :
      (src : Text) (max_size : ℕ) (out : Text)
      → max_size + 1 < 2 ^ 63
      → (gunzip gunzip_reader src max_size ≡ ok out) ↔ Fits max_size out (gunzip_reader src)
  unfolding gunzip
  gunzip_is_capped src max_size out m = (
    result-Fits max_size out (gunzip_reader src) m,
    Fits-result max_size out (gunzip_reader src) m,
  )

-- What is sent in place of a payload is shorter than it.
pub length-compress :
    (gzip : ℕ → Text → Option Text) (c : Compressor) (src z : Text)
    → compress gzip c src ≡ some z
    → length z < length src
unfolding compress smaller
length-compress gzip c src z h = shorter (gzip c.level src) h
  where
    shorter :
        (o : Option Text)
        → (if ltb (length src) c.threshold then none else smaller gzip src o) ≡ some z
        → length z < length src
    shorter none h = ground arith
    shorter (some buf) h = ground arith
