-- ===== src/Client/Options.antt =====
-- pkg/client/options.go, client.go, request.go: the options of a client and of a request. Durations
-- are nanoseconds, and the caller's deadline, if it has one, has not passed. An interceptor is known
-- by its type and a number.
use psrpc.Base.{
  not, ℕ, Bool, true, false, ◌||◌, List, [], ◌∷◌, ◌++◌, Option, none, some, Text, if◌then◌else◌,
  ltb, nat_beq, map,
}
use psrpc.Info.Channels.{RequestInfo}
use psrpc.Client.Select.{SelectionOpts}
use psrpc.Client.Select.Scores.{Floats}

abbrev pub default_client_timeout : ℕ
default_client_timeout = 3000000000

abbrev pub default_affinity_timeout : ℕ
default_affinity_timeout = 1000000000

abbrev pub default_affinity_short_circuit : ℕ
default_affinity_short_circuit = 200000000

abbrev pub default_channel_size : ℕ
default_channel_size = 100

-- The types that RequestInterceptor lists.
pub data Kind : Type 0 where
  rpc_kind multi_rpc_kind stream_kind : Kind

pub record AnyInterceptor : Type 0 where
  pub kind : Kind
  pub interceptor : ℕ

-- ClientOpts, without its hooks.
pub record ClientOpts : Type 0 where
  pub client_id : Text
  pub timeout : ℕ
  pub selection_timeout : ℕ
  pub channel_size : ℕ
  pub enable_streams : Bool
  pub rpc_interceptors : List ℕ
  pub multi_rpc_interceptors : List ℕ
  pub stream_interceptors : List ℕ

mutual
  pub data ClientOption : Type 0 where
    with_client_id : Text → ClientOption
    with_client_timeout with_client_select_timeout with_client_channel_size : ℕ → ClientOption
    with_streams : ClientOption
    with_client_rpc_interceptors with_client_multi_rpc_interceptors
          with_client_stream_interceptors :
        List ℕ → ClientOption
    with_client_options : ClientOptions → ClientOption

  pub data ClientOptions : Type 0 where
    no_options : ClientOptions
    and_option : ClientOption → ClientOptions → ClientOptions

-- An option, applied to the options so far.
unfoldable mutual
  pub apply_option : ClientOption → ClientOpts → ClientOpts
  apply_option (with_client_id id) o = record o { client_id = id }
  apply_option (with_client_timeout t) o = record o { timeout = t }
  apply_option (with_client_select_timeout t) o = record o { selection_timeout = t }
  apply_option (with_client_channel_size n) o = record o { channel_size = n }
  apply_option with_streams o = record o { enable_streams = true }
  apply_option (with_client_rpc_interceptors is) o = record o {
    rpc_interceptors = o.rpc_interceptors ++ is;
  }
  apply_option (with_client_multi_rpc_interceptors is) o = record o {
    multi_rpc_interceptors = o.multi_rpc_interceptors ++ is;
  }
  apply_option (with_client_stream_interceptors is) o = record o {
    stream_interceptors = o.stream_interceptors ++ is;
  }
  apply_option (with_client_options opts) o = apply_options opts o

  pub apply_options : ClientOptions → ClientOpts → ClientOpts
  apply_options no_options o = o
  apply_options (and_option opt opts) o = apply_options opts (apply_option opt o)

abbrev pub default_client_opts : ClientOpts
default_client_opts = record {
  client_id = [];
  timeout = 0;
  selection_timeout = default_affinity_timeout;
  channel_size = default_channel_size;
  enable_streams = false;
  rpc_interceptors = [];
  multi_rpc_interceptors = [];
  stream_interceptors = [];
}

unfoldable pub get_client_opts : ClientOptions → ClientOpts
unfolding apply_options
get_client_opts opts = apply_options opts default_client_opts

-- RequestOpts, with its interceptors.
pub record RequestOptions (F D : Type 0) : Type 0 where
  pub timeout : ℕ
  pub selection_opts : SelectionOpts F D
  pub interceptors : Option (List AnyInterceptor)

pub data RequestOption (F D : Type 0) : Type 0 where
  with_request_timeout : ℕ → RequestOption F D
  with_selection_opts : SelectionOpts F D → RequestOption F D
  with_request_interceptors : Kind → List ℕ → RequestOption F D

abbrev pub or_no_interceptors : Option (List AnyInterceptor) → List AnyInterceptor
or_no_interceptors none = []
or_no_interceptors (some is) = is

-- slices.Grow makes a nil slice of no interceptors stay nil.
unfoldable pub grown :
    Option (List AnyInterceptor) → List AnyInterceptor → Option (List AnyInterceptor)
grown none [] = none
grown none (i ∷ is) = some (i ∷ is)
grown (some js) is = some (js ++ is)

module _ {F D : Type 0} where
  unfoldable pub apply_request_option : RequestOption F D → RequestOptions F D → RequestOptions F D
  unfolding grown
  apply_request_option (with_request_timeout t) o = record o { timeout = t }
  apply_request_option (with_selection_opts s) o = record o { selection_opts = s }
  apply_request_option (with_request_interceptors kind is) o = record o {
    interceptors = grown o.interceptors (map (λ i. record { kind = kind; interceptor = i }) is);
  }

  unfoldable pub apply_request_options :
      List (RequestOption F D) → RequestOptions F D → RequestOptions F D
  unfolding apply_request_option
  apply_request_options [] o = o
  apply_request_options (opt ∷ opts) o = apply_request_options opts (apply_request_option opt o)

-- The client's timeout and the time until the caller's deadline.
unfoldable pub clamped : ℕ → Option ℕ → ℕ
clamped timeout none = timeout
clamped timeout (some dt) = if nat_beq timeout 0 || ltb dt timeout then dt else timeout

unfoldable pub or_default : ℕ → ℕ
or_default timeout = if nat_beq timeout 0 then default_client_timeout else timeout

module _ {F D : Type 0} (fl : Floats F) where
  abbrev pub base_selection : RequestInfo → ClientOpts → SelectionOpts F D
  base_selection i options = record {
    minimum_affinity = fl.zero;
    maximum_affinity = fl.zero;
    accept_first_available = not i.affinity_enabled;
    affinity_timeout = options.selection_timeout;
    short_circuit_timeout = if i.affinity_enabled then default_affinity_short_circuit else 0;
    selection_func = none;
  }

  -- getRequestOpts.
  unfoldable pub get_request_opts :
      Option ℕ → RequestInfo → ClientOpts → List (RequestOption F D) → RequestOptions F D
  unfolding clamped or_default apply_request_options
  get_request_opts until_deadline i options opts = apply_request_options opts (record {
    timeout = or_default (clamped options.timeout until_deadline);
    selection_opts = base_selection i options;
    interceptors = none;
  })

abbrev pub same_kind : Kind → Kind → Bool
same_kind rpc_kind rpc_kind = true
same_kind multi_rpc_kind multi_rpc_kind = true
same_kind stream_kind stream_kind = true
same_kind _ _ = false

-- The loop of getRequestInterceptors; without a result it panics.
unfoldable pub append_interceptors : Kind → List ℕ → List AnyInterceptor → Option (List ℕ)
append_interceptors kind c [] = some c
append_interceptors kind c (a ∷ is) =
    let rest = append_interceptors kind (c ++ a.interceptor ∷ []) is in
    if same_kind kind a.kind then rest else none

unfoldable pub get_request_interceptors :
    Kind → List ℕ → Option (List AnyInterceptor) → Option (List ℕ)
unfolding append_interceptors
get_request_interceptors kind base none = some base
get_request_interceptors kind base (some is) = append_interceptors kind base is
