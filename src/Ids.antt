-- ===== src/Ids.antt =====
-- pkg/rand/id.go: how identifiers are made from the draws of a random source, each a number of 63
-- bits, which gives ten chunks of six.
pub mod Letters
mod Tests
use psrpc.Base.{
  ℕ, zero, suc, ◌+◌, ◌-◌, ◌/◌, ◌%◌, Bool, true, false, List, [], ◌∷◌, ◌++◌, Option, none, some,
  Text, text, if◌then◌else◌, ltb, nat_beq, length, get_elem?,
}

abbrev pub alphabet : Text
alphabet = text "abcdefghijklmnopqrstuvwxyzABCDEFGHIJKLMNOPQRSTUVWXYZ0123456789"

-- How far reading got: the buffer is full, or it misses so many bytes after what was written.
pub data Read : Type 0 where
  full : Text → Read
  misses : ℕ → Text → Read

-- A chunk that is the index of a character is written; others are skipped.
abbrev pub write_chunk : Option ℕ → ℕ → Text → (ℕ → Text → Read) → Read
write_chunk none missing b next = next missing b
write_chunk (some c) missing b next =
    if nat_beq missing 1 then full (b ++ c ∷ []) else next (missing - 1) (b ++ c ∷ [])

-- So many chunks of a draw.
unfoldable pub read_draw : ℕ → ℕ → ℕ → Text → Read
read_draw zero r missing b = misses missing b
read_draw (suc i) r missing b =
    write_chunk (get_elem? alphabet (r % 64)) missing b (λ m c. read_draw i (r / 64) m c)

abbrev pub after_draw : Read → (ℕ → Text → Option Text) → Option Text
after_draw (full b) next = some b
after_draw (misses missing b) next = next missing b

-- readIDChars, over the draws that it makes; without a result it needs another one.
unfoldable pub read_id_chars : List ℕ → ℕ → Text → Option Text
unfolding read_draw
read_id_chars [] missing b = none
read_id_chars (r ∷ draws) missing b =
    after_draw (read_draw 10 r missing b) (λ m c. read_id_chars draws m c)

abbrev pub with_prefix : Text → Option Text → Option Text
with_prefix prefix none = none
with_prefix prefix (some b) = some (prefix ++ b)

unfoldable pub format_id : Text → List ℕ → Option Text
unfolding read_id_chars
format_id prefix draws = with_prefix prefix (read_id_chars draws 12 [])

unfoldable pub new_request_id : List ℕ → Option Text
unfolding format_id
new_request_id draws = format_id (text "REQ_") draws
