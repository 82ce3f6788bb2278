-- ===== src/Examples/OpenSsl.antt =====
-- A connector whose builder lists what was set on it, and a discovery that inserts and removes.
use mathlib.Core.List.{Memᴰ}
use etcd_client.Prelude.{
  ℕ, ◌≤◌, ◌*◌, ◌≡◌, ◌≢◌, refl, String, Bool, true, none, inl, inr, List, [], ◌∷◌,
}
use etcd_client.Bytes.{Bytes}
use etcd_client.Error.{Result}
use etcd_client.BackOff
use etcd_client.BackOff.{BackOffStatus, Poll, trace_poll}
use etcd_client.BackOff.Bounds.{IsValid, Reach}
use etcd_client.OpenSsl.{
  OpenSsl, chain, build_connector, default_config, Change, insert, remove, second, to_connection,
  discover,
}
use etcd_client.OpenSsl.Config.{ca, client, apply_all, effects, build_connector-apply_all}
use etcd_client.OpenSsl.Discover.{discover_backs_off}
use etcd_client.Examples.{foreign, foo, bar}

abbrev openssl : OpenSsl foreign
openssl = record {
  Builder = List Bytes;
  Certificate = Bytes;
  PrivateKey = Bytes;
  Connector = List Bytes;
  tls_client = inr [];
  set_alpn_protos = λ protos b. inr (protos ∷ b);
  certificate_from_pem = λ s. inr s;
  add_cert = λ c b. inr (c ∷ b);
  private_key_from_pem = λ s. inl "bad key";
  set_certificate = λ c b. inr (c ∷ b);
  set_private_key = λ k b. inr (k ∷ b);
  with_connector = λ b. inr b;
}

build_connector-apply_all_example :
    build_connector openssl
      (apply_all openssl (ca foo ∷ ca [] ∷ client foo bar ∷ []) (default_config openssl))
    ≡ chain (default_config openssl) (λ b.
      chain (effects openssl (ca foo ∷ ca [] ∷ client foo bar ∷ []) b) openssl.with_connector)
build_connector-apply_all_example =
    build_connector-apply_all openssl (ca foo ∷ ca [] ∷ client foo bar ∷ [])
      (default_config openssl)

abbrev name_length : String → ℕ
name_length url = 4

abbrev changes : List (Change ℕ String)
changes = insert 1 "http" ∷ remove 1 ∷ insert 2 "tcp" ∷ []

abbrev all_taken : ℕ → Bool
all_taken n = true

abbrev fresh : BackOffStatus
fresh = BackOff.new (1 * second) (256 * second)

sent_first : Memᴰ (insert 1 (4, fresh)) (discover name_length all_taken 0 changes)
unfolding discover to_connection
sent_first = Memᴰ.head refl

discover_backs_off_example :
    IsValid fresh
    × (fresh.current_backoff_dur ≤ 256 * second)
    × ((checked now : ℕ) (answer : Poll (Result foreign ℕ))
        → trace_poll checked now answer fresh ≢ none)
discover_backs_off_example =
    discover_backs_off name_length all_taken 0 changes 1 4 fresh fresh sent_first Reach.here
