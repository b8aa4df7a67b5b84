-- ===== src/Info/Tests.antt =====
-- Runs of the channel names, on the examples of pkg/info/channels_test.go and others.
use psrpc.Base.{◌≡◌, refl, Bool, true, false, List, [], ◌∷◌, ◌++◌, map, Text, text, ◌↔◌, All}
use psrpc.Info.Utf8.{runes}
use psrpc.Info.Channels.{
  RequestInfo, sanitize_rune, append_sanitized_channel_part, append_channel_parts, format_channel,
  format_client_channel, format_server_channel, format_local_channel, handler_key, rpc_channel,
  response_channel,
}
use psrpc.Info.Sanitize.{sanitized_injective}
use psrpc.Info.Keys.{NonEmpty, legacy_channel_injective}
use psrpc.Info.Requests.{kept, mark, server_channel_eq}

abbrev foo_bar : List Text → Bool → RequestInfo
foo_bar topic queue = record {
  service = text "foo";
  method = text "bar";
  topic = topic;
  multi = false;
  affinity_enabled = false;
  require_claim = true;
  queue = queue;
}

abbrev abc : List Text
abc = text "a" ∷ text "b" ∷ text "c" ∷ []

rpc_channel_run : rpc_channel (foo_bar abc true) ≡ record {
  legacy = text "foo|bar|a|b|c|REQ";
  server = text "SRV.foo.a.b.c.Q";
  local = text "bar.REQ";
}
unfolding rpc_channel format_channel append_channel_parts append_sanitized_channel_part runes
    sanitize_rune format_server_channel format_local_channel
rpc_channel_run = refl

response_channel_run :
    response_channel (text "foo") (text "bar")
    ≡ record { legacy = text "foo|bar|RES"; server = text "CLI.foo.bar.RES"; local = [] }
unfolding response_channel format_channel append_channel_parts append_sanitized_channel_part runes
    sanitize_rune format_client_channel
response_channel_run = refl

-- U+00E9 and U+1F600 in UTF-8, then a byte that is no UTF-8.
sanitized_run :
    append_sanitized_channel_part [] (0xC3 ∷ 0xA9 ∷ 0xF0 ∷ 0x9F ∷ 0x98 ∷ 0x80 ∷ 0xFF ∷ [])
    ≡ text "u+00e9U+0001f600u+fffd"
unfolding append_sanitized_channel_part runes sanitize_rune
sanitized_run = refl

handler_key_run : handler_key (foo_bar abc false) ≡ text "bar.a.b.c"
unfolding handler_key format_channel append_channel_parts append_sanitized_channel_part runes
    sanitize_rune
handler_key_run = refl

sanitized_injective_example : runes (text "a.b") ≡ runes (text "a.b")
sanitized_injective_example = sanitized_injective (text "a.b") (text "a.b") refl

named_parts : All NonEmpty (text "foo" ∷ text "bar" ∷ text "REQ" ∷ text "a" ∷ [])
named_parts = ((λ e. cc), ((λ e. cc), ((λ e. cc), ((λ e. cc), tt))))

legacy_channel_injective_example :
    (runes (text "foo") ≡ runes (text "foo"))
    × (runes (text "bar") ≡ runes (text "bar"))
    × (map runes (text "a" ∷ []) ≡ map runes (text "a" ∷ []))
    × (runes (text "REQ") ≡ runes (text "REQ"))
legacy_channel_injective_example =
    legacy_channel_injective (foo_bar (text "a" ∷ []) false) (foo_bar (text "a" ∷ []) true)
      (text "REQ") (text "REQ") named_parts named_parts refl

server_channel_eq_example :
    (format_server_channel (text "foo") (text "a" ∷ text "Q" ∷ []) false
      ≡ format_server_channel (text "foo") ([] ∷ text "a" ∷ []) true)
    ↔ (map runes (kept (text "a" ∷ text "Q" ∷ []) ++ mark false)
        ≡ map runes (kept ([] ∷ text "a" ∷ []) ++ mark true))
server_channel_eq_example =
    server_channel_eq (text "foo") (text "a" ∷ text "Q" ∷ []) ([] ∷ text "a" ∷ []) false true
