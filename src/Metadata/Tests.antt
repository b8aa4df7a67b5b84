-- ===== src/Metadata/Tests.antt =====
-- Runs of outgoing metadata: a value is added, one is appended, and another added later.
use psrpc.Base.{◌≡◌, refl, List, [], ◌∷◌, none, some, Text, text}
use psrpc.Base.Assoc.{insert}
use psrpc.Metadata.{outgoing_metadata, returns}
use psrpc.Metadata.Outgoing.{
  Change, adds, appends, resets, made_by, appended, given, or_else, Says, copied_values_are_last,
}

abbrev key : Text
key = text "k"

abbrev other : Text
other = text "other"

abbrev changes : List Change
changes =
    adds (some ((key, text "c") ∷ (other, text "d") ∷ []))
    ∷ appends (key ∷ text "b" ∷ key ∷ [])
    ∷ adds (some ((key, text "a") ∷ []))
    ∷ []

-- What is appended wins over what is added later.
appended_wins :
    outgoing_metadata (made_by changes) ≡ returns (some ((key, text "b") ∷ (other, text "d") ∷ []))
unfolding made_by outgoing_metadata insert
appended_wins = refl

nothing_was_set : outgoing_metadata (made_by (appends [] ∷ [])) ≡ returns none
unfolding made_by outgoing_metadata
nothing_was_set = refl

-- Where code has set a nil map, an append starts anew.
append_after_nil :
    outgoing_metadata (made_by (appends (key ∷ key ∷ []) ∷ resets none ∷ []))
    ≡ returns (some ((key, key) ∷ []))
unfolding made_by outgoing_metadata insert
append_after_nil = refl

copied_values_are_last_example :
    Says (outgoing_metadata (made_by changes)) (λ k. or_else (appended changes k) (given changes k))
copied_values_are_last_example = copied_values_are_last changes
