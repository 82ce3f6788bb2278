-- ===== src/Client.antt =====
-- src/client.rs: the options of a connection, its endpoints, and the connection of a client. The
-- other methods of `Client` forward to the clients of the services.
pub mod Endpoints
pub mod Connect
pub mod Connecting
pub mod Members
pub mod Forwards
pub mod Requests
pub mod Operations
use Prim.Native.String.{◌++◌}
use text.Mathlib.Text.{starts_with}
use etcd_client.Prelude.{
  ℕ, String, Bool, true, false, ◌&&◌, ◌||◌, Option, none, some, List, [], ◌∷◌, ◌⊎◌, inl, inr, map,
  if◌then◌else◌,
}
use etcd_client.Error.{
  Foreign, Error, Result, ok, err, ◌>>=◌, invalid_args, invalid_uri, transport_error, internal,
  endpoint_error, endpoints_not_managed,
}
use etcd_client.Exec
use etcd_client.Exec.{Exec}
use etcd_client.Caller.{Session, AuthService, refresh_token, is_some}
use etcd_client.Rpc.{unwrap_or}

abbrev pub http_prefix : String
http_prefix = "http://"

abbrev pub https_prefix : String
https_prefix = "https://"

-- The build's features "_tls" and "tls-openssl".
pub record Features : Type 0 where
  pub tls : Bool
  pub tls_openssl : Bool

-- `Uri` and `Endpoint` of other crates, with what the client calls of them, and the types of the TLS
-- options.
pub record Transport (F : Foreign) : Type 1 where
  pub Uri : Type 0
  pub Endpoint : Type 0
  pub TlsOptions : Type 0
  pub OpenSslConnector : Type 0
  pub parse : String → F.InvalidUri ⊎ Uri
  pub builder : Uri → Endpoint
  pub uri : Endpoint → Uri
  pub default_tls : TlsOptions
  pub tls_config : TlsOptions → Endpoint → F.TransportError ⊎ Endpoint
  pub keep_alive_while_idle : Bool → Endpoint → Endpoint
  pub http2_keep_alive_interval : ℕ → Endpoint → Endpoint
  pub keep_alive_timeout : ℕ → Endpoint → Endpoint
  pub timeout : ℕ → Endpoint → Endpoint
  pub connect_timeout : ℕ → Endpoint → Endpoint
  pub tcp_keepalive : Option ℕ → Endpoint → Endpoint

-- The fields `tls` and `otls` exist under their features alone; without the feature nothing reads
-- them here.
pub record ConnectOptions {F : Foreign} (t : Transport F) : Type 0 where
  pub user : Option (String × String)
  pub keep_alive : Option (ℕ × ℕ)
  pub keep_alive_while_idle : Bool
  pub timeout : Option ℕ
  pub connect_timeout : Option ℕ
  pub tcp_keepalive : Option ℕ
  pub tls : Option t.TlsOptions
  pub otls : Option (F.ErrorStack ⊎ t.OpenSslConnector)
  pub require_leader : Bool
  pub refresh_expired_token : Bool

module _ {F : Foreign} {t : Transport F} where
  unfoldable pub new : ConnectOptions t
  new = record {
    user = none;
    keep_alive = none;
    keep_alive_while_idle = true;
    timeout = none;
    connect_timeout = none;
    tcp_keepalive = none;
    tls = none;
    otls = none;
    require_leader = false;
    refresh_expired_token = false;
  }

  -- the derived `Default`
  unfoldable pub default_options : ConnectOptions t
  unfolding new
  default_options = record new { keep_alive_while_idle = false }

  unfoldable pub with_user : String → String → ConnectOptions t → ConnectOptions t
  with_user name password self = record self { user = some (name, password) }

  unfoldable pub with_tls : t.TlsOptions → ConnectOptions t → ConnectOptions t
  with_tls tls self = record self { tls = some tls }

  -- `otls` is what `OpenSslClientConfig::build` gives.
  unfoldable pub with_openssl_tls :
      F.ErrorStack ⊎ t.OpenSslConnector → ConnectOptions t → ConnectOptions t
  with_openssl_tls otls self = record self { otls = some otls }

  unfoldable pub with_keep_alive : ℕ → ℕ → ConnectOptions t → ConnectOptions t
  with_keep_alive interval timeout self = record self { keep_alive = some (interval, timeout) }

  unfoldable pub with_timeout : ℕ → ConnectOptions t → ConnectOptions t
  with_timeout timeout self = record self { timeout = some timeout }

  unfoldable pub with_connect_timeout : ℕ → ConnectOptions t → ConnectOptions t
  with_connect_timeout timeout self = record self { connect_timeout = some timeout }

  unfoldable pub with_tcp_keepalive : ℕ → ConnectOptions t → ConnectOptions t
  with_tcp_keepalive tcp_keepalive self = record self { tcp_keepalive = some tcp_keepalive }

  unfoldable pub with_keep_alive_while_idle : Bool → ConnectOptions t → ConnectOptions t
  with_keep_alive_while_idle enabled self = record self { keep_alive_while_idle = enabled }

  unfoldable pub with_require_leader : Bool → ConnectOptions t → ConnectOptions t
  with_require_leader require_leader self = record self { require_leader = require_leader }

  unfoldable pub with_auto_token_refresh : Bool → ConnectOptions t → ConnectOptions t
  with_auto_token_refresh refresh_expired_token self = record self {
    refresh_expired_token = refresh_expired_token;
  }

-- `if let Some(a) = option { endpoint = f(endpoint, a) }`
abbrev pub when_some : {A B : Type 0} → Option A → (A → B → B) → B → B
when_some none f b = b
when_some (some a) f b = f a b

module _ {F : Foreign} (t : Transport F) where
  -- `url.parse()?`
  abbrev pub parse_url : String → Result F t.Uri
  parse_url url = elim (t.parse url) [ inl e ↦ err (invalid_uri e) | inr uri ↦ ok uri ]

  -- `TonicChannel::builder(url.parse()?)`
  abbrev pub plain : String → Result F t.Endpoint
  plain url = parse_url url >>= λ uri. ok (t.builder uri)

  -- `TonicChannel::builder(url.parse()?).tls_config(tls)?`
  abbrev pub secure : t.TlsOptions → String → Result F t.Endpoint
  secure tls url = parse_url url >>= λ uri. elim (t.tls_config tls (t.builder uri)) [
    | inl e ↦ err (transport_error e)
    | inr e ↦ ok e
  ]

  -- The rest of `build_endpoint`.
  unfoldable pub configure : ConnectOptions t → t.Endpoint → t.Endpoint
  configure options endpoint =
      when_some options.tcp_keepalive (λ d. t.tcp_keepalive (some d))
        (when_some options.connect_timeout t.connect_timeout (
          when_some options.timeout t.timeout (
            when_some options.keep_alive
              (λ d e. t.keep_alive_timeout d.1 (
                t.http2_keep_alive_interval d.0
                  (t.keep_alive_while_idle options.keep_alive_while_idle e)))
              endpoint)))

module _ {F : Foreign} (t : Transport F) (features : Features) where
  -- The last branch of the choice: a URL without a scheme.
  unfoldable pub without_scheme : String → ConnectOptions t → Result F t.Endpoint
  without_scheme url options =
      if features.tls
      then (elim options.tls [
        | some tls ↦ secure t tls (https_prefix ++ url)
        | none ↦ plain t (http_prefix ++ url)
      ])
      else if features.tls_openssl
      then plain t ((if is_some options.otls then https_prefix else http_prefix) ++ url)
      else plain t (http_prefix ++ url)

  -- The choice that starts `build_endpoint`.
  unfoldable pub scheme_endpoint : String → ConnectOptions t → Result F t.Endpoint
  unfolding without_scheme
  scheme_endpoint url options =
      if starts_with url http_prefix
      then (if features.tls && is_some options.tls
          then err (invalid_args "TLS options are only supported with HTTPS URLs")
          else plain t url)
      else if starts_with url https_prefix
      then (if features.tls
          then secure t (unwrap_or t.default_tls options.tls) url
          else if features.tls_openssl
          then plain t url
          else err (
              invalid_args
                "HTTPS URLs are only supported with one of the features \"tls\", \"tls-ring\" or \"tls-aws-lc\""))
      else without_scheme url options

  unfoldable pub build_endpoint : String → ConnectOptions t → Result F t.Endpoint
  unfolding scheme_endpoint configure
  build_endpoint url options =
      scheme_endpoint url options >>= λ endpoint. ok (configure t options endpoint)
