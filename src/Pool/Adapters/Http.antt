-- ===== src/Pool/Adapters/Http.antt =====
-- pool/adapters/http.go: HTTPConnection, its factory, and the requests of PooledHTTPClient. Each method holds the
-- connection's lock throughout. The HTTP client and its transport are a number.
use fyer_kit.Prelude.{ℕ, ◌+◌, ◌⊎◌, Bool, true, false, not, Option, none, some, leb, if◌then◌else◌}
use fyer_kit.Pool.{ConnectionPool}
use fyer_kit.Pool.Adapters.Helpers.{Call, from_request, Helped, returned, with_pooled_client}

-- `timer` is the keep-alive timer; `idle_closes` counts the calls of CloseIdleConnections, and `stops` those of Stop.
pub record HttpConnection : Type 0 where
  pub client : ℕ
  pub last_used : ℕ
  pub timer : Option ℕ
  pub closed : Bool
  pub idle_closes : ℕ
  pub stops : ℕ

-- Durations are in nanoseconds. The TLS configuration is left out.
pub record HttpClientConfig : Type 0 where
  pub timeout : ℕ
  pub dial_timeout : ℕ
  pub keep_alive : ℕ
  pub max_idle_conns : ℕ
  pub max_idle_conns_per_host : ℕ
  pub max_conns_per_host : ℕ
  pub idle_conn_timeout : ℕ
  pub tls_handshake_timeout : ℕ
  pub expect_continue_timeout : ℕ
  pub response_header_timeout : ℕ
  pub disable_keep_alives : Bool
  pub disable_compression : Bool

unfoldable pub default_http_client_config : HttpClientConfig
default_http_client_config = record {
  timeout = 30_000_000_000;
  dial_timeout = 10_000_000_000;
  keep_alive = 30_000_000_000;
  max_idle_conns = 100;
  max_idle_conns_per_host = 10;
  max_conns_per_host = 100;
  idle_conn_timeout = 90_000_000_000;
  tls_handshake_timeout = 10_000_000_000;
  expect_continue_timeout = 1_000_000_000;
  response_header_timeout = 10_000_000_000;
  disable_keep_alives = false;
  disable_compression = false;
}

-- `if c.keepAliveTimer != nil { c.keepAliveTimer.Stop(); c.keepAliveTimer = nil }`
unfoldable pub stop_timer : Option ℕ → HttpConnection → HttpConnection
stop_timer none c = c
stop_timer (some t) c = record c { timer = none; stops = c.stops + 1 }

unfoldable pub close : HttpConnection → HttpConnection
unfolding stop_timer
close c =
    let d = stop_timer c.timer c in
    if c.closed then c else record d { idle_closes = d.idle_closes + 1; closed = true }

unfoldable pub raw : HttpConnection → ℕ
raw c = c.client

unfoldable pub is_alive : HttpConnection → Bool
is_alive c = not c.closed

unfoldable pub reset_state : ℕ → HttpConnection → HttpConnection
unfolding stop_timer
reset_state now c = stop_timer c.timer (record c { last_used = now })

pub record HttpConnectionFactory : Type 0 where
  pub config : HttpClientConfig

unfoldable pub new_http_connection_factory : Option HttpClientConfig → HttpConnectionFactory
unfolding default_http_client_config
new_http_connection_factory none = record { config = default_http_client_config }
new_http_connection_factory (some config) = record { config = config }

-- CheckRedirect of the client: whether a redirect is refused, after this many requests.
unfoldable pub check_redirect : ℕ → Bool
check_redirect via = leb 10 via

-- Create, where the client that it builds from the configuration is `build config`.
unfoldable pub create : (HttpClientConfig → ℕ) → ℕ → HttpConnectionFactory → HttpConnection
create build now f = record {
  client = build f.config;
  last_used = now;
  timer = none;
  closed = false;
  idle_closes = 0;
  stops = 0;
}

pub data Method : Type 0 where
  method_get method_post : Method

pub record Request : Type 0 where
  pub method : Method
  pub url : ℕ
  pub content_type : Option ℕ
  pub body : Option ℕ

module _ {A : Type 0} where
  -- Do, where `send` is what the client with the number answers to the request.
  unfoldable pub do_request : Call → (ℕ → Request → A ⊎ ℕ) → Request → ConnectionPool → Helped A
  unfolding with_pooled_client
  do_request u send r p = with_pooled_client u (λ n. send n r) p

  -- NewRequest answers an error or nil.
  unfoldable pub get_url : Call → (ℕ → Request → A ⊎ ℕ) → Option ℕ → ℕ → ConnectionPool → Helped A
  unfolding do_request
  get_url u send (some e) url p = returned none (some (from_request e)) p
  get_url u send none url p =
      do_request u send
        (record { method = method_get; url = url; content_type = none; body = none }) p

  -- The body is not used.
  unfoldable pub post :
      Call → (ℕ → Request → A ⊎ ℕ) → Option ℕ → ℕ → ℕ → Option ℕ → ConnectionPool → Helped A
  unfolding do_request
  post u send (some e) url content_type body p = returned none (some (from_request e)) p
  post u send none url content_type body p =
      do_request u send
        (record { method = method_post; url = url; content_type = some content_type; body = none })
        p
