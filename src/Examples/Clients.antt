-- ===== src/Examples/Clients.antt =====
-- A client of two endpoints, on a transport whose URLs and endpoints are texts, and a balanced channel
-- whose world is the list of the changes that it has received.
use etcd_client.Prelude.{
  ℕ, String, ◌≡◌, refl, true, false, none, some, List, [], ◌∷◌, ◌++◌, inr, is_empty,
}
use etcd_client.Error.{ok}
use etcd_client.Caller.{Session, AuthService, refresh_token, is_some}
use etcd_client.Caller.Tokens.{Leaves}
use etcd_client.Client.{Features, Transport, ConnectOptions, build_endpoint, configure}
use etcd_client.Client.Endpoints.{IsSecure, build_endpoint-IsSecure}
use etcd_client.Client.Connect.{
  Change, Balancer, Client, build_endpoints, connect_with_balanced_channel, add_endpoint,
  remove_endpoint,
}
use etcd_client.Client.Connecting.{inserts, Received, IsQuiet, connect_inserts}
use etcd_client.Examples.{foreign}

abbrev transport : Transport foreign
transport = record {
  Uri = String;
  Endpoint = String;
  TlsOptions = ℕ;
  OpenSslConnector = ℕ;
  parse = λ url. inr url;
  builder = λ uri. uri;
  uri = λ endpoint. endpoint;
  default_tls = 0;
  tls_config = λ tls endpoint. inr endpoint;
  keep_alive_while_idle = λ enabled endpoint. endpoint;
  http2_keep_alive_interval = λ interval endpoint. endpoint;
  keep_alive_timeout = λ timeout endpoint. endpoint;
  timeout = λ timeout endpoint. endpoint;
  connect_timeout = λ timeout endpoint. endpoint;
  tcp_keepalive = λ tcp_keepalive endpoint. endpoint;
}

abbrev with_tls_feature : Features
with_tls_feature = record { tls = true; tls_openssl = false }

abbrev without_tls : Features
without_tls = record { tls = false; tls_openssl = false }

abbrev tls_options : ConnectOptions transport
tls_options = record {
  user = some ("root", "secret");
  keep_alive = some (10, 3);
  keep_alive_while_idle = true;
  timeout = none;
  connect_timeout = none;
  tcp_keepalive = none;
  tls = some 1;
  otls = none;
  require_leader = false;
  refresh_expired_token = false;
}

secure_built :
    build_endpoint transport with_tls_feature "localhost:2379" tls_options
    ≡ ok "https://localhost:2379"
unfolding build_endpoint
secure_built = refl

build_endpoint-IsSecure_example :
    (u : String) × (bare : String) × IsSecure transport 1 u bare
    × ("https://localhost:2379" ≡ configure transport tls_options bare)
build_endpoint-IsSecure_example =
    build_endpoint-IsSecure transport with_tls_feature "localhost:2379" tls_options 1
      "https://localhost:2379" refl refl secure_built

plain_built :
    build_endpoint transport without_tls "localhost:2379" tls_options ≡ ok "http://localhost:2379"
unfolding build_endpoint
plain_built = refl

abbrev Log : Type 0
Log = List (Change transport)

abbrev balancer : Balancer transport Log
balancer = record {
  Channel = ℕ;
  Updater = ℕ;
  balanced_channel = λ size. ok (1, 2);
  send = λ tx change w. (none, w ++ change ∷ []);
}

abbrev received : Received balancer
received = record { log = λ w. w; send_logs = λ tx change w h. refl }

abbrev login_service : AuthService foreign ℕ Log
login_service = record { authenticate = λ user password s. (ok "seven", s); parse = λ text. ok 7 }

login_leaves : Leaves login_service
login_leaves = record { token_kept = λ user password s. refl; creds_kept = λ user password s. refl }

login-IsQuiet : IsQuiet {b = balancer} received login_service
login-IsQuiet = record { quiet = λ user password s. refl }

abbrev two_urls : List String
two_urls = "localhost:2379" ∷ "localhost:2380" ∷ []

abbrev two_endpoints : Client balancer
two_endpoints = record { channel = 1; options = tls_options; tx = some 2 }

connected :
    (connect_with_balanced_channel transport without_tls login_service balancer two_urls
      (some tls_options)
      []).0
    ≡ ok two_endpoints
unfolding connect_with_balanced_channel refresh_token build_endpoint
connected = refl

connect_inserts_example :
    (built : List String) × (build_endpoints transport without_tls tls_options two_urls ≡ ok built)
    × (is_empty built ≡ false)
    × (received.log
          (connect_with_balanced_channel transport without_tls login_service balancer two_urls
            (some tls_options)
            []).1.world
        ≡ received.log [] ++ inserts transport built)
    × (is_some
          (connect_with_balanced_channel transport without_tls login_service balancer two_urls
            (some tls_options)
            []).1.auth_token
        ≡ true)
connect_inserts_example =
    connect_inserts transport without_tls balancer received login_service login_leaves login-IsQuiet
      two_urls (some tls_options) [] two_endpoints connected

abbrev session : Session ℕ Log
session = record { auth_token = some 7; creds = none; world = [] }

added :
    (add_endpoint transport without_tls login_service balancer "localhost:2381" two_endpoints
      session).0
    ≡ ok tt
unfolding add_endpoint build_endpoint
added = refl

removed :
    (remove_endpoint transport without_tls login_service balancer "http://localhost:2381"
      two_endpoints session).0
    ≡ ok tt
unfolding remove_endpoint
removed = refl
