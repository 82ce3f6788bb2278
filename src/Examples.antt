-- ===== src/Examples.antt =====
-- Concrete inputs for the theorems, and the unit tests of src/rpc/mod.rs and src/vec.rs.
pub mod KeyRanges
pub mod Vectors
pub mod Namespaces
pub mod Transactions
pub mod Sessions
pub mod Connections
pub mod Headers
pub mod Leases
pub mod Clients
pub mod Watchers
pub mod Permissions
pub mod Clones
pub mod OpenSsl
pub mod Locks
pub mod Channels
pub mod Operations
pub mod Stores
pub mod Jobs
pub mod Concurrent
pub mod Handles
use etcd_client.Prelude.{ℕ, ◌+◌, String, Bool, Option, none, some, [], ◌∷◌, arith}
use etcd_client.Bytes.{Bytes, IsBytes}
use etcd_client.Error.{Foreign, ok, err, grpc_status}
use etcd_client.Exec.{Exec}
use etcd_client.Caller.{Session, AuthService}

-- A status is the answer to whether it is Unauthenticated.
abbrev pub foreign : Foreign
foreign = record {
  InvalidUri = String;
  IoError = String;
  TransportError = String;
  Status = Bool;
  Utf8Error = String;
  InvalidMetadataValue = String;
  ErrorStack = String;
  is_unauthenticated = λ b. b;
}

-- The requests that were sent, and the authentications.
pub record World : Type 0 where
  pub sent : ℕ
  pub authenticated : ℕ

abbrev pub count_request : Session ℕ World → Session ℕ World
count_request s = record s { world = record s.world { sent = s.world.sent + 1 } }

abbrev pub count_login : Session ℕ World → Session ℕ World
count_login s = record s { world = record s.world { authenticated = s.world.authenticated + 1 } }

-- A server that lets everyone in, with the token 7.
abbrev pub service : AuthService foreign ℕ World
service = record {
  authenticate = λ user password s. (ok "seven", count_login s);
  parse = λ text. ok 7;
}

abbrev pub logged_out : Session ℕ World
logged_out = record {
  auth_token = none;
  creds = none;
  world = record { sent = 0; authenticated = 0 };
}

-- Credentials are set, but there is no token yet.
abbrev pub expired : Session ℕ World
expired = record {
  auth_token = none;
  creds = some ("root", "secret");
  world = record { sent = 0; authenticated = 0 };
}

-- A request that needs a token.
abbrev pub answer : ℕ → Option ℕ → Exec foreign (Session ℕ World) ℕ
answer req none s = (err (grpc_status Bool.true), s)
answer req (some token) s = (ok (req + token), s)

abbrev pub request : ℕ → Exec foreign (Session ℕ World) ℕ
request req s = answer req s.auth_token (count_request s)

-- "foo", "bar" and "foobar"
abbrev pub foo : Bytes
foo = 102 ∷ 111 ∷ 111 ∷ []

abbrev pub bar : Bytes
bar = 98 ∷ 97 ∷ 114 ∷ []

abbrev pub foobar : Bytes
foobar = 102 ∷ 111 ∷ 111 ∷ 98 ∷ 97 ∷ 114 ∷ []

pub foo-IsBytes : IsBytes foo
foo-IsBytes = ground arith

pub bar-IsBytes : IsBytes bar
bar-IsBytes = ground arith

pub foobar-IsBytes : IsBytes foobar
foobar-IsBytes = ground arith
