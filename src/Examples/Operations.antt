-- ===== src/Examples/Operations.antt =====
-- Operations of a client whose token has expired.
use etcd_client.Prelude.{◌+◌, ◌≤◌, String, ◌≡◌, refl, false, true, none, some, [], if◌then◌else◌}
use etcd_client.Caller.{Session}
use etcd_client.Intercept.{token_header}
use etcd_client.Intercept.Headers.{to_list}
use etcd_client.Service.{Method, is_open}
use etcd_client.Service.Channel.{intercepted}
use etcd_client.Service.Tokens.{intercepted_tokens}
use etcd_client.Client.Requests.{Operation, method_of}
use etcd_client.Client.Forwards.{client_watch}
use etcd_client.Client.Operations.{perform}
use etcd_client.Client.Operations.Refinement.{is_direct}
use etcd_client.Client.Operations.Bounds.{perform_bounds}
use etcd_client.Examples.{World, foo}
use etcd_client.Examples.Headers.{entries, entries-IsMultimap}
use etcd_client.Examples.Channels.{unit_streams, channel, meter, parse}

-- The token "six" is not accepted any more.
abbrev stale : Session String World
stale = record {
  auth_token = some "six";
  creds = some ("root", "secret");
  world = record { sent = 0; authenticated = 0 };
}

abbrev pub lock_foo : Operation
lock_foo = Operation.lock foo none

perform_bounds_example :
    (let (_, s') = perform entries unit_streams channel "true" true parse true lock_foo stale in
      (s'.world.sent ≤ 0 + 2) × (s'.world.authenticated ≤ 0 + 1))
    × (let (_, s') =
          client_watch entries unit_streams channel "true" true parse true foo none stale in
        (s'.world.sent ≤ 0 + 2) × (s'.world.authenticated ≤ 0 + 1))
perform_bounds_example =
    perform_bounds entries unit_streams channel "true" true parse true meter lock_foo foo none stale

pub lock_foo_called : is_direct (method_of lock_foo) ≡ false
unfolding method_of
lock_foo_called = refl

intercepted_tokens_example :
    entries.get_all token_header
      (intercepted {W = World} entries unit_streams channel "true" true Method.cluster_member_add
        (some "six")).metadata
    ≡ (if is_open Method.cluster_member_add then [] else to_list (some "six"))
intercepted_tokens_example =
    intercepted_tokens entries entries-IsMultimap unit_streams channel "true" true
      Method.cluster_member_add (some "six") refl
