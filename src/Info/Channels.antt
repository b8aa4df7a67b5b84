-- ===== src/Info/Channels.antt =====
-- pkg/info/channels.go and info.go: the channel names of requests, claims, responses and streams.
use psrpc.Base.{
  ℕ, ◌/◌, ◌%◌, ◌^◌, Bool, false, ◌&&◌, ◌||◌, List, [], ◌∷◌, ◌++◌, Text, text, if◌then◌else◌, leb,
  ltb, nat_beq, length, get_elem?, Option, none, some,
}
use psrpc.Info.Utf8.{runes}

-- bus.Channel.
pub record Channel : Type 0 where
  pub legacy : Text
  pub server : Text
  pub local : Text

-- RequestInfo, with the fields of RPCInfo that name channels.
pub record RequestInfo : Type 0 where
  pub service : Text
  pub method : Text
  pub topic : List Text
  pub multi : Bool
  pub affinity_enabled : Bool
  pub require_claim : Bool
  pub queue : Bool

-- channelChar: 0-9, A-Z, _ and a-z.
unfoldable pub is_channel_char : ℕ → Bool
is_channel_char r =
    (leb 0x30 r && leb r 0x39)
    || ((leb 0x41 r && leb r 0x5a) || (nat_beq r 0x5f || (leb 0x61 r && leb r 0x7a)))

get_or_zero : Option ℕ → ℕ
get_or_zero none = 0
get_or_zero (some b) = b

-- lowerHex[r>>s&0xF]; the index is below 16.
unfoldable pub hex_digit : ℕ → ℕ → ℕ
unfolding get_or_zero
hex_digit r s = get_or_zero (get_elem? (text "0123456789abcdef") (r / 2 ^ s % 16))

-- The escape of a rune, or the rune itself.
unfoldable pub sanitize_rune : ℕ → Text
unfolding hex_digit is_channel_char
sanitize_rune r =
    if is_channel_char r
    then r ∷ []
    else if ltb r 0x10000
    then text "u+" ++ (hex_digit r 12 ∷ hex_digit r 8 ∷ hex_digit r 4 ∷ hex_digit r 0 ∷ [])
    else text "U+"
      ++ (hex_digit r 28
          ∷ hex_digit r 24
          ∷ hex_digit r 20
          ∷ hex_digit r 16
          ∷ hex_digit r 12
          ∷ hex_digit r 8
          ∷ hex_digit r 4
          ∷ hex_digit r 0
          ∷ [])

unfoldable pub append_runes : Text → List ℕ → Text
append_runes buf [] = buf
append_runes buf (r ∷ rs) = append_runes (buf ++ sanitize_rune r) rs

unfoldable pub append_sanitized_channel_part : Text → Text → Text
unfolding append_runes
append_sanitized_channel_part buf s = append_runes buf (runes s)

-- An argument of formatChannel: a string or a slice of strings.
pub data Part : Type 0 where
  str : Text → Part
  strs : List Text → Part

-- The loop of appendChannelParts over strings, with its variables `buf` and `prefix`.
unfoldable pub append_strings : Text → Bool → ℕ → List Text → Text
append_strings buf prefix delim [] = buf
append_strings buf prefix delim (t ∷ ts) =
    let led = if prefix then buf ++ delim ∷ [] else buf in
    let grown = append_sanitized_channel_part led t in
    append_strings grown (ltb (length led) (length grown)) delim ts

-- One part of either kind.
unfoldable pub append_part : Text → ℕ → Part → Text
append_part buf delim (str t) = append_sanitized_channel_part buf t
append_part buf delim (strs ts) = append_strings buf false delim ts

unfoldable pub append_channel_parts : Text → Bool → ℕ → List Part → Text
unfolding append_part append_strings
append_channel_parts buf prefix delim [] = buf
append_channel_parts buf prefix delim (p ∷ ps) =
    let led = if prefix then buf ++ delim ∷ [] else buf in
    let grown = append_part led delim p in
    append_channel_parts grown (ltb (length led) (length grown)) delim ps

unfoldable pub format_channel : ℕ → List Part → Text
format_channel delim ps = append_channel_parts [] false delim ps

unfoldable pub format_client_channel : Text → Text → Text → Text
format_client_channel service client_id channel =
    text "CLI." ++ (service ++ (b'.' ∷ (client_id ++ (b'.' ∷ channel))))

unfoldable pub format_local_channel : Text → Text → Text
format_local_channel method channel = method ++ (b'.' ∷ channel)

unfoldable pub append_topics : Text → List Text → Text
append_topics b [] = b
append_topics b (t ∷ ts) =
    append_topics (if ltb 0 (length t) then append_sanitized_channel_part (b ++ b'.' ∷ []) t else b)
      ts

unfoldable pub format_server_channel : Text → List Text → Bool → Text
unfolding append_topics
format_server_channel service topic queue =
    let b = append_topics (text "SRV." ++ service) topic in if queue then b ++ text ".Q" else b

unfoldable pub per_request_client_id : Text → Text → Text
per_request_client_id client_id request_id = client_id ++ (b'.' ∷ request_id)

unfoldable pub extend_first : ℕ → List Text → List Text
extend_first c [] = (c ∷ []) ∷ []
extend_first c (p ∷ ps) = (c ∷ p) ∷ ps

-- strings.Split at a one-byte separator.
unfoldable pub split : ℕ → Text → List Text
unfolding extend_first
split sep [] = [] ∷ []
split sep (c ∷ s) = if nat_beq c sep then [] ∷ split sep s else extend_first c (split sep s)

-- `parts[len(parts)-2]`, where there are two parts or more.
unfoldable pub second_last : List Text → Text
second_last [] = []
second_last (a ∷ []) = []
second_last (a ∷ b ∷ []) = a
second_last (a ∷ b ∷ c ∷ ps) = second_last (b ∷ c ∷ ps)

unfoldable pub per_request_id : Text → Text
unfolding second_last
per_request_id channel = second_last (split b'.' channel)

unfoldable pub claim_request_channel : Text → Text → Channel
claim_request_channel service client_id = record {
  legacy = format_channel b'|' (str service ∷ str client_id ∷ str (text "CLAIM") ∷ []);
  server = format_client_channel service client_id (text "CLAIM");
  local = [];
}

unfoldable pub stream_channel : Text → Text → Channel
stream_channel service node_id = record {
  legacy = format_channel b'|' (str service ∷ str node_id ∷ str (text "STR") ∷ []);
  server = format_client_channel service node_id (text "STR");
  local = [];
}

unfoldable pub response_channel : Text → Text → Channel
response_channel service client_id = record {
  legacy = format_channel b'|' (str service ∷ str client_id ∷ str (text "RES") ∷ []);
  server = format_client_channel service client_id (text "RES");
  local = [];
}

abbrev pub legacy_channel : RequestInfo → Text → Text
legacy_channel i kind =
    format_channel b'|' (str i.service ∷ str i.method ∷ strs i.topic ∷ str kind ∷ [])

unfoldable pub rpc_channel : RequestInfo → Channel
rpc_channel i = record {
  legacy = legacy_channel i (text "REQ");
  server = format_server_channel i.service i.topic i.queue;
  local = format_local_channel i.method (text "REQ");
}

unfoldable pub handler_key : RequestInfo → Text
handler_key i = format_channel b'.' (str i.method ∷ strs i.topic ∷ [])

unfoldable pub claim_response_channel : RequestInfo → Channel
claim_response_channel i = record {
  legacy = legacy_channel i (text "RCLAIM");
  server = format_server_channel i.service i.topic false;
  local = format_local_channel i.method (text "RCLAIM");
}

unfoldable pub stream_server_channel : RequestInfo → Channel
stream_server_channel i = record {
  legacy = legacy_channel i (text "STR");
  server = format_server_channel i.service i.topic false;
  local = format_local_channel i.method (text "STR");
}
