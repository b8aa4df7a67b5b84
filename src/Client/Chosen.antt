-- ===== src/Client/Chosen.antt =====
-- What a request's and a client's options come to.
use psrpc.Info.Channels.{RequestInfo}
use psrpc.Client.Select.Scores.{Floats}
use psrpc.Base.{
  subst, ℕ, ◌≤◌, ◌<◌, ◌≡◌, refl, sym, ap, ◌∙◌, Bool, true, false, List, [], ◌∷◌, none, some, arith,
  all,
}
use psrpc.Client.Options.{
  with_streams, with_client_stream_interceptors, with_client_multi_rpc_interceptors,
  with_client_rpc_interceptors, with_client_channel_size, with_client_select_timeout,
  with_client_timeout, with_client_id, base_selection, default_client_opts, get_client_opts,
  RequestOptions, apply_option, apply_request_option, clamped, ClientOpts, ClientOption,
  get_request_opts, ClientOptions, RequestOption, or_default, apply_options, apply_request_options,
  with_request_timeout, with_selection_opts, with_request_interceptors, no_options, and_option,
  with_client_options,
}

-- The options that leave a request's timeout alone.
abbrev pub keeps_timeout : {F D : Type 0} → RequestOption F D → Bool
keeps_timeout (with_request_timeout t) = false
keeps_timeout (with_selection_opts s) = true
keeps_timeout (with_request_interceptors kind is) = true

clamped_lem :
    (timeout dt : ℕ)
    → 0 < dt
    → (0 < or_default (clamped timeout (some dt)))
      × (or_default (clamped timeout (some dt)) ≤ dt)
      × (0 < timeout → or_default (clamped timeout (some dt)) ≤ timeout)
unfolding or_default clamped
clamped_lem timeout dt h = (ground arith, ground arith, λ p. ground arith)

module _ {F D : Type 0} where
  timeout_kept :
      (opts : List (RequestOption F D)) (o : RequestOptions F D)
      → all keeps_timeout opts ≡ true
      → (apply_request_options opts o).timeout ≡ o.timeout
  unfolding apply_request_options apply_request_option
  timeout_kept [] o h = refl
  timeout_kept (with_request_timeout t ∷ opts) o h = cc
  timeout_kept (with_selection_opts s ∷ opts) o h =
      timeout_kept opts (record o { selection_opts = s }) h
  timeout_kept (with_request_interceptors kind is ∷ opts) o h =
      timeout_kept opts (apply_request_option (with_request_interceptors kind is) o) h

  -- Of a caller with a deadline that lies ahead, a request without a timeout of its own waits some
  -- time, but neither past the deadline nor longer than the client's timeout, if that is set.
  pub request_timeout_bounded :
      (fl : Floats F) (dt : ℕ) (i : RequestInfo) (options : ClientOpts)
      (opts : List (RequestOption F D))
      → 0 < dt
      → all keeps_timeout opts ≡ true
      → let t = (get_request_opts fl (some dt) i options opts).timeout in
        (0 < t) × (t ≤ dt) × (0 < options.timeout → t ≤ options.timeout)
  unfolding get_request_opts
  request_timeout_bounded fl dt i options opts h k =
      subst (λ t. (0 < t) × (t ≤ dt) × (0 < options.timeout → t ≤ options.timeout))
        (sym (
          timeout_kept opts
            (record {
              timeout = or_default (clamped options.timeout (some dt));
              selection_opts = base_selection fl i options;
              interceptors = none;
            })
            k))
        (clamped_lem options.timeout dt h)

-- Options one after another.
unfoldable pub all_options : ClientOptions → ClientOptions → ClientOptions
all_options no_options others = others
all_options (and_option opt opts) others = and_option opt (all_options opts others)

-- Every option of WithClientOptions, in its place.
unfoldable mutual
  pub flat : ClientOptions → ClientOptions
  flat no_options = no_options
  flat (and_option opt opts) = all_options (flat_option opt) (flat opts)

  pub flat_option : ClientOption → ClientOptions
  flat_option (with_client_options opts) = flat opts
  flat_option opt = and_option opt no_options

apply-all :
    (opts others : ClientOptions) (o : ClientOpts)
    → apply_options (all_options opts others) o ≡ apply_options others (apply_options opts o)
unfolding all_options apply_options
apply-all no_options others o = refl
apply-all (and_option opt opts) others o = apply-all opts others (apply_option opt o)

mutual
  unfolding flat flat_option apply_options apply_option

  flat-same :
      (opts : ClientOptions) (o : ClientOpts) → apply_options (flat opts) o ≡ apply_options opts o
  flat-same no_options o = refl
  flat-same (and_option opt opts) o =
      apply-all (flat_option opt) (flat opts) o
      ∙ flat-same opts (apply_options (flat_option opt) o)
      ∙ ap (apply_options opts) (flat_option-same opt o)

  flat_option-same :
      (opt : ClientOption) (o : ClientOpts) → apply_options (flat_option opt) o ≡ apply_option opt o
  flat_option-same (with_client_options opts) o = flat-same opts o
  flat_option-same (with_client_id id) o = refl
  flat_option-same (with_client_timeout t) o = refl
  flat_option-same (with_client_select_timeout t) o = refl
  flat_option-same (with_client_channel_size n) o = refl
  flat_option-same with_streams o = refl
  flat_option-same (with_client_rpc_interceptors is) o = refl
  flat_option-same (with_client_multi_rpc_interceptors is) o = refl
  flat_option-same (with_client_stream_interceptors is) o = refl

-- Options that are bundled by WithClientOptions, bundles within bundles included, make the same client
-- as the single ones in their places.
pub bundled_options_are_flat :
    (opts : ClientOptions) → get_client_opts (flat opts) ≡ get_client_opts opts
unfolding get_client_opts
bundled_options_are_flat opts = flat-same opts default_client_opts
