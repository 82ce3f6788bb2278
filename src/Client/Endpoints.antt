-- ===== src/Client/Endpoints.antt =====
-- What an endpoint that `build_endpoint` accepts stands for.
use Prim.Native.String.{◌++◌}
use text.Mathlib.Text.{starts_with}
use text.Mathlib.TextPositions.{starts_with-append}
use etcd_client.Prelude.{
  String, true, false, ◌≡◌, ◌∙◌, ap, some, inl, inr, arith, Bool-cases, Sum-cases,
}
use etcd_client.Error.{Foreign, ok, Result-cases}
use etcd_client.Client.{
  https_prefix, http_prefix, Features, Transport, ConnectOptions, secure, without_scheme,
  scheme_endpoint, configure, build_endpoint,
}

module _ {F : Foreign} (t : Transport F) where
  -- The endpoint is that of the URL `u`, with the TLS options.
  pub record IsSecure (tls : t.TlsOptions) (u : String) (endpoint : t.Endpoint) : Type 0 where
    pub scheme : starts_with u https_prefix ≡ true
    pub uri : t.Uri
    pub parsed : t.parse u ≡ inr uri
    pub configured : t.tls_config tls (t.builder uri) ≡ inr endpoint

  secure-IsSecure :
      (tls : t.TlsOptions) (u : String) (endpoint : t.Endpoint)
      → starts_with u https_prefix ≡ true
      → secure t tls u ≡ ok endpoint
      → IsSecure tls u endpoint
  secure-IsSecure tls u endpoint s h = elim (Sum-cases (t.parse u)) [
    | inl (e, bad) ↦ absurd (ground (arith, bad))
    | inr (uri, parsed) ↦ elim (Sum-cases (t.tls_config tls (t.builder uri))) [
      | inl (e, bad) ↦ absurd (ground (arith, parsed, bad))
      | inr (made, configured) ↦ record {
        scheme = s;
        uri = uri;
        parsed = parsed;
        configured = configured ∙ ap inr (ground (arith, parsed, configured));
      }
    ]
  ]

  scheme_endpoint-IsSecure :
      (features : Features) (url : String) (options : ConnectOptions t) (tls : t.TlsOptions)
      (endpoint : t.Endpoint)
      → features.tls ≡ true
      → options.tls ≡ some tls
      → scheme_endpoint t features url options ≡ ok endpoint
      → (u : String) × IsSecure tls u endpoint
  unfolding scheme_endpoint without_scheme
  scheme_endpoint-IsSecure features url options tls endpoint f o h =
      elim (Bool-cases (starts_with url http_prefix)) [
        | inl http ↦ absurd (ground (arith, http))
        | inr other ↦ elim (Bool-cases (starts_with url https_prefix)) [
          | inl https ↦ (url, secure-IsSecure tls url endpoint https (rw (other, https, f, o) at h))
          | inr bare ↦ (
            https_prefix ++ url,
            secure-IsSecure tls (https_prefix ++ url) endpoint (starts_with-append https_prefix url)
                (rw (other, bare, f, o) at h),
          )
        ]
      ]

  -- In a build with the feature `_tls`, when TLS options are set, every endpoint that `build_endpoint`
  -- gives has a URL that starts with "https://" and these TLS options, under the other settings of
  -- the connection: a client with TLS options never talks in the clear.
  pub build_endpoint-IsSecure :
      (features : Features) (url : String) (options : ConnectOptions t) (tls : t.TlsOptions)
      (endpoint : t.Endpoint)
      → features.tls ≡ true
      → options.tls ≡ some tls
      → build_endpoint t features url options ≡ ok endpoint
      → (u : String) × (bare : t.Endpoint) × IsSecure tls u bare
        × (endpoint ≡ configure t options bare)
  unfolding build_endpoint
  build_endpoint-IsSecure features url options tls endpoint f o h =
      elim (Result-cases (scheme_endpoint t features url options)) [
        | inr (e, bad) ↦ absurd (ground (arith, bad))
        | inl (bare, made) ↦
            let (u, secured) = scheme_endpoint-IsSecure features url options tls bare f o made in
            (u, bare, secured, ground (arith, made))
      ]

  -- In a build without TLS, every endpoint that `build_endpoint` gives has a URL that starts with
  -- "http://": an "https://" URL is refused, not opened in the clear.
  pub build_endpoint_plain :
      (features : Features) (url : String) (options : ConnectOptions t) (endpoint : t.Endpoint)
      → features.tls ≡ false
      → features.tls_openssl ≡ false
      → build_endpoint t features url options ≡ ok endpoint
      → (u : String) × (uri : t.Uri) × (starts_with u http_prefix ≡ true)
        × (t.parse u ≡ inr uri)
        × (endpoint ≡ configure t options (t.builder uri))
  unfolding build_endpoint scheme_endpoint without_scheme
  build_endpoint_plain features url options endpoint f g h =
      elim (Bool-cases (starts_with url http_prefix)) [
        | inl http ↦ elim (Sum-cases (t.parse url)) [
          | inl (e, bad) ↦ absurd (ground (arith, http, bad))
          | inr (uri, parsed) ↦ (url, uri, http, parsed, ground (arith, http, parsed))
        ]
        | inr other ↦ elim (Bool-cases (starts_with url https_prefix)) [
          | inl https ↦ absurd (ground (arith, other, https))
          | inr bare ↦ elim (Sum-cases (t.parse (http_prefix ++ url))) [
            | inl (e, bad) ↦ absurd (ground (arith, other, bare, bad))
            | inr (uri, parsed) ↦ (
              http_prefix ++ url,
              uri,
              starts_with-append http_prefix url,
              parsed,
              ground (arith, other, bare, parsed),
            )
          ]
        ]
      ]
