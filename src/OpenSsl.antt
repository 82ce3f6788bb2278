-- ===== src/OpenSsl.antt =====
-- src/openssl_tls/transport.rs: the configuration of an OpenSSL connector, and the task that turns
-- changes of endpoints into changes of connections. OpenSSL, hyper and the lazy channels of tonic are
-- parameters.
pub mod Config
pub mod Discover
use etcd_client.Prelude.{ℕ, ◌+◌, Bool, ◌⊎◌, inl, inr, List, [], ◌∷◌, ◌*◌, is_empty, if◌then◌else◌}
use etcd_client.Bytes.{Bytes}
use etcd_client.Error.{Foreign}
use etcd_client.BackOff
use etcd_client.BackOff.{BackOffStatus}

abbrev pub OpenSslResult : Foreign → Type 0 → Type 0
OpenSslResult F A = F.ErrorStack ⊎ A

-- `Result::and_then`, which is also what `?` does here.
abbrev pub chain : {E A B : Type 0} → E ⊎ A → (A → E ⊎ B) → E ⊎ B
chain (inl e) f = inl e
chain (inr a) f = f a

-- What is called of OpenSSL and hyper. A function that changes the builder gives the changed one; an
-- error drops it.
pub record OpenSsl (F : Foreign) : Type 1 where
  pub Builder : Type 0
  pub Certificate : Type 0
  pub PrivateKey : Type 0
  pub Connector : Type 0
  pub tls_client : OpenSslResult F Builder
  pub set_alpn_protos : Bytes → Builder → OpenSslResult F Builder
  pub certificate_from_pem : Bytes → OpenSslResult F Certificate
  pub add_cert : Certificate → Builder → OpenSslResult F Builder
  pub private_key_from_pem : Bytes → OpenSslResult F PrivateKey
  pub set_certificate : Certificate → Builder → OpenSslResult F Builder
  pub set_private_key : PrivateKey → Builder → OpenSslResult F Builder
  -- `HttpsConnector::with_connector`, on a new connector that does not enforce http.
  pub with_connector : Builder → OpenSslResult F Connector

-- "\x02h2"
abbrev pub alpn : Bytes
alpn = 2 ∷ 104 ∷ 50 ∷ []

module _ {F : Foreign} (o : OpenSsl F) where
  -- `OpenSslClientConfig`, a result with a builder.
  abbrev pub OpenSslClientConfig : Type 0
  OpenSslClientConfig = OpenSslResult F o.Builder

  unfoldable pub default_config : OpenSslClientConfig
  default_config = chain o.tls_client (o.set_alpn_protos alpn)

  unfoldable pub manually :
      (o.Builder → OpenSslResult F o.Builder) → OpenSslClientConfig → OpenSslClientConfig
  manually f self = chain self f

  abbrev pub add_ca : Bytes → o.Builder → OpenSslResult F o.Builder
  add_ca s cb = chain (o.certificate_from_pem s) (λ ca. o.add_cert ca cb)

  unfoldable pub ca_cert_pem : Bytes → OpenSslClientConfig → OpenSslClientConfig
  unfolding manually
  ca_cert_pem s self = if is_empty s then self else manually (add_ca s) self

  abbrev pub add_client : Bytes → Bytes → o.Builder → OpenSslResult F o.Builder
  add_client cert_pem key_pem cb = chain (o.certificate_from_pem cert_pem) (λ client.
      chain (o.private_key_from_pem key_pem)
        (λ client_key. chain (o.set_certificate client cb) (o.set_private_key client_key)))

  unfoldable pub client_cert_pem_and_key : Bytes → Bytes → OpenSslClientConfig → OpenSslClientConfig
  unfolding manually
  client_cert_pem_and_key cert_pem key_pem self =
      if is_empty cert_pem
      then self
      else if is_empty key_pem
      then self
      else manually (add_client cert_pem key_pem) self

  -- `build`, with `create_openssl_connector`
  unfoldable pub build_connector : OpenSslClientConfig → OpenSslResult F o.Connector
  build_connector self = chain self o.with_connector

-- `tonic::transport::channel::Change` and `tower::discover::Change`
pub data Change (K V : Type 0) : Type 0 where
  insert : (name : K) (value : V) → Change K V
  remove : (name : K) → Change K V

-- A second in nanoseconds.
abbrev pub second : ℕ
second = 1_000_000_000

-- `BackOffWhenFail` as it is made: the channel and the status.
module _ {K Endpoint Channel : Type 0} (connect_lazy : Endpoint → Channel) where
  unfoldable pub to_connection : Change K Endpoint → Change K (Channel × BackOffStatus)
  to_connection (insert name e) =
      insert name (connect_lazy e, BackOff.new (1 * second) (256 * second))
  to_connection (remove name) = remove name

  -- The loop of `create_openssl_discover` on the changes that come in; `taken n` says whether the
  -- receiver still takes the change number `n`. It gives what has been sent.
  unfoldable pub discover :
      (taken : ℕ → Bool) (n : ℕ)
      → List (Change K Endpoint)
      → List (Change K (Channel × BackOffStatus))
  unfolding to_connection
  discover taken n [] = []
  discover taken n (x ∷ incoming) =
      let rest = discover taken (n + 1) incoming in if taken n then to_connection x ∷ rest else []
