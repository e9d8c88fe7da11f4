-- ===== src/Pool/Adapters/Grpc.antt =====
-- pool/adapters/grpc.go: GRPCConnection and its factory. Each method holds the connection's lock throughout. The client
-- connection of the grpc package is a number, and its answers are inputs.
use fyer_kit.Prelude.{
  ℕ, ◌+◌, ◌⊎◌, inl, inr, Bool, true, false, not, ◌&&◌, ◌||◌, Option, none, some, List, [], ◌∷◌,
  ◌++◌, map, ltb, ◌==◌, if◌then◌else◌,
}

-- The states of package connectivity.
pub data ConnState : Type 0 where
  idle connecting ready transient_failure shutdown : ConnState

-- AllowedStates, where a map that is nil is `none`, and HealthCheck.
pub record GrpcHealthConfig : Type 0 where
  pub allowed_states : Option (ConnState → Bool)
  pub health_check : Option (ℕ → Bool)

-- `raw_closes` counts the calls of Close on the client connection, and `backoff_resets` those of ResetConnectBackoff.
pub record GrpcConnection : Type 0 where
  pub conn : ℕ
  pub target : ℕ
  pub last_used : ℕ
  pub closed : Bool
  pub health_cfg : Option GrpcHealthConfig
  pub raw_closes : ℕ
  pub backoff_resets : ℕ

abbrev pub ready_or_idle : ConnState → Bool
ready_or_idle idle = true
ready_or_idle ready = true
ready_or_idle connecting = false
ready_or_idle transient_failure = false
ready_or_idle shutdown = false

-- Close, with what the client connection's Close answers.
unfoldable pub close : Option ℕ → GrpcConnection → Option ℕ × GrpcConnection
close answer c =
    if c.closed
    then (none, c)
    else (answer, record c { closed = true; raw_closes = c.raw_closes + 1 })

unfoldable pub raw : GrpcConnection → ℕ
raw c = c.conn

abbrev pub allows : Option (ConnState → Bool) → ConnState → Bool
allows none state = ready_or_idle state
allows (some allowed) state = allowed state

abbrev pub checks : Option (ℕ → Bool) → Bool → ℕ → Bool
checks none by_state n = by_state
checks (some check) by_state n = check n

abbrev pub healthy : Option GrpcHealthConfig → ConnState → ℕ → Bool
healthy none state n = ready_or_idle state
healthy (some h) state n = checks h.health_check (allows h.allowed_states state) n

-- `state` is what GetState answers.
unfoldable pub is_alive : ConnState → GrpcConnection → Bool
is_alive state c = if c.closed then false else healthy c.health_cfg state c.conn

unfoldable pub reset_state : ConnState → ℕ → GrpcConnection → GrpcConnection
reset_state state now c =
    let d : GrpcConnection = record c { last_used = now; closed = false } in
    if not (ready_or_idle state) then record d { backoff_resets = c.backoff_resets + 1 } else d

-- Texts, credentials, interceptors and further options are numbers; the empty text is 0. The fields that Create does not read
-- are left out.
pub record GrpcClientConfig : Type 0 where
  pub target : ℕ
  pub secure : Bool
  pub transport_credentials : Option ℕ
  pub per_rpc_credentials : Option ℕ
  pub unary_interceptors : List ℕ
  pub stream_interceptors : List ℕ
  pub block : Bool
  pub timeout : ℕ
  pub max_send_msg_size : ℕ
  pub max_recv_msg_size : ℕ
  pub disable_retry : Bool
  pub disable_service_config : Bool
  pub user_agent : ℕ
  pub keepalive_time : ℕ
  pub keepalive_timeout : ℕ
  pub keepalive_permit_without_stream : Bool
  pub use_compressor : ℕ
  pub default_service_config : ℕ
  pub health_config : Option GrpcHealthConfig
  pub dial_options : List ℕ

unfoldable pub default_grpc_client_config : GrpcClientConfig
default_grpc_client_config = record {
  target = 0;
  secure = false;
  transport_credentials = none;
  per_rpc_credentials = none;
  unary_interceptors = [];
  stream_interceptors = [];
  block = false;
  timeout = 20_000_000_000;
  max_send_msg_size = 0;
  max_recv_msg_size = 0;
  disable_retry = false;
  disable_service_config = false;
  user_agent = 0;
  keepalive_time = 30_000_000_000;
  keepalive_timeout = 10_000_000_000;
  keepalive_permit_without_stream = false;
  use_compressor = 0;
  default_service_config = 0;
  health_config = some (record { allowed_states = some ready_or_idle; health_check = none });
  dial_options = [];
}

-- The options of the grpc package that Create makes.
pub data DialOption : Type 0 where
  transport_credentials : Option ℕ → DialOption
  per_rpc_credentials unary_interceptor stream_interceptor max_msg_size user_agent use_compressor
        default_service_config further_option :
      ℕ → DialOption
  block_until_ready disable_retry disable_service_config : DialOption
  keepalive_params : ℕ → ℕ → Bool → DialOption

abbrev pub when : Bool → DialOption → List DialOption
when true o = o ∷ []
when false o = []

abbrev pub if_set : Option ℕ → (ℕ → DialOption) → List DialOption
if_set none make = []
if_set (some n) make = make n ∷ []

-- `none` stands for the insecure credentials.
abbrev pub credentials_options : Bool → Option ℕ → List DialOption
credentials_options true credentials = if_set credentials (λ n. transport_credentials (some n))
credentials_options false credentials = transport_credentials none ∷ []

-- The part of Create that makes the options.
unfoldable pub dial_options : GrpcClientConfig → List DialOption
dial_options g =
    credentials_options g.secure g.transport_credentials
    ++ if_set g.per_rpc_credentials per_rpc_credentials
    ++ map unary_interceptor g.unary_interceptors
    ++ map stream_interceptor g.stream_interceptors
    ++ when g.block block_until_ready
    ++ when g.disable_retry disable_retry
    ++ when g.disable_service_config disable_service_config
    ++ when (ltb 0 g.max_send_msg_size) (max_msg_size g.max_send_msg_size)
    ++ when (ltb 0 g.max_recv_msg_size) (max_msg_size g.max_recv_msg_size)
    ++ when (not (g.user_agent == 0)) (user_agent g.user_agent)
    ++ when (ltb 0 g.keepalive_time || ltb 0 g.keepalive_timeout)
        (keepalive_params g.keepalive_time g.keepalive_timeout g.keepalive_permit_without_stream)
    ++ when (not (g.use_compressor == 0)) (use_compressor g.use_compressor)
    ++ when (not (g.default_service_config == 0)) (default_service_config g.default_service_config)
    ++ map further_option g.dial_options

pub record GrpcConnectionFactory : Type 0 where
  pub config : GrpcClientConfig

unfoldable pub new_grpc_connection_factory : Option GrpcClientConfig → GrpcConnectionFactory
unfolding default_grpc_client_config
new_grpc_connection_factory none = record { config = default_grpc_client_config }
new_grpc_connection_factory (some config) = record { config = config }

-- What the grpc package answers: a client connection or an error; its state; whether the state changes before the context is
-- done; and the error of the context.
pub record DialAnswers : Type 0 where
  pub dialed : ℕ ⊎ ℕ
  pub state : ConnState
  pub changes : Bool
  pub context_error : ℕ

abbrev pub is_ready : ConnState → Bool
is_ready ready = true
is_ready idle = false
is_ready connecting = false
is_ready transient_failure = false
is_ready shutdown = false

-- The client connection is ready or no wait is asked for, or its state changes in time; else it is closed.
unfoldable pub with_dialed :
    DialAnswers → ℕ → GrpcClientConfig → ℕ ⊎ ℕ → (GrpcConnection ⊎ ℕ) × List ℕ
with_dialed a now g (inr e) = (inr e, [])
with_dialed a now g (inl n) =
    if g.block && (not (is_ready a.state) && not a.changes)
    then (inr a.context_error, n ∷ [])
    else (
      inl (record {
        conn = n;
        target = g.target;
        last_used = now;
        closed = false;
        health_cfg = g.health_config;
        raw_closes = 0;
        backoff_resets = 0;
      }),
      [],
    )

-- Create: a connection or an error, and the client connections that it closes.
unfoldable pub create : DialAnswers → ℕ → GrpcConnectionFactory → (GrpcConnection ⊎ ℕ) × List ℕ
unfolding with_dialed
create a now f = with_dialed a now f.config a.dialed
