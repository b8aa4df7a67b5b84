-- ===== src/Ids/Tests.antt =====
-- Identifiers from fixed draws.
use psrpc.Ids.Letters.{id_is_first_letters, letters}
use psrpc.Ids.{format_id, new_request_id}
use psrpc.Base.{take, length, leb, if◌then◌else◌, ◌≡◌, refl, [], ◌∷◌, ◌++◌, none, some, text}

-- The first chunk of 63 is no index and skipped.
skips_chunks : format_id (text "S_") (63 ∷ 64 ∷ []) ≡ some (text "S_aaaaaaaaaaba")
unfolding format_id
skips_chunks = refl

short_of_letters : new_request_id (0 ∷ []) ≡ none
unfolding new_request_id
short_of_letters = refl

id_is_first_letters_example : format_id (text "S_") (63 ∷ 64 ∷ []) ≡ (
    if leb 12 (length (letters (63 ∷ 64 ∷ [])))
    then some (text "S_" ++ take 12 (letters (63 ∷ 64 ∷ [])))
    else none)
id_is_first_letters_example = id_is_first_letters (text "S_") (63 ∷ 64 ∷ [])
