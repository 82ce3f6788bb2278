-- ===== src/Examples/Namespaces.antt =====
-- The requests of a namespace client on concrete keys.
use etcd_client.Prelude.{◌≡◌, refl, true, false, [], ◌∷◌}
use etcd_client.Bytes.{in_range, starts_with}
use etcd_client.KeyRange
use etcd_client.KeyRange.{KeyRange, build, get_prefix}
use etcd_client.KeyRange.Prefix.{next_prefix}
use etcd_client.VecExt.{strip_key_prefix}
use etcd_client.Kv.Get
use etcd_client.Kv.Get.{GetOptions, GetResponse, PbRangeRequest, strip_kvs_prefix}
use etcd_client.Kv.Delete
use etcd_client.Kv.Delete.{DeleteOptions}
use etcd_client.Namespace.Requests.{
  sent_delete, sent_delete-all_keys_escapes, sent_delete-from_key_escapes,
}
use etcd_client.Examples.{foo, bar, foobar}

foobar_rest : (strip_key_prefix foo foobar ≡ bar)
unfolding strip_key_prefix starts_with
foobar_rest = refl

abbrev get_options : GetOptions
get_options = record Get.new { key_range = record KeyRange.new { range_end = 0 ∷ [] } }

abbrev delete_options : DeleteOptions
delete_options = record Delete.new { key_range = record KeyRange.new { prefix_flag = true } }

sent_delete-all_keys_escapes_example :
    in_range
      (sent_delete foo bar (Delete.with_all_keys Delete.new)).key
      (sent_delete foo bar (Delete.with_all_keys Delete.new)).range_end
      bar
    ≡ true
sent_delete-all_keys_escapes_example = sent_delete-all_keys_escapes foo bar bar Delete.new refl

sent_delete-from_key_escapes_example :
    (in_range
        (sent_delete foo bar (Delete.with_from_key Delete.new)).key
        (sent_delete foo bar (Delete.with_from_key Delete.new)).range_end
        (102 ∷ 111 ∷ 112 ∷ [])
      ≡ true)
    × (starts_with foo (102 ∷ 111 ∷ 112 ∷ []) ≡ false)
sent_delete-from_key_escapes_example =
    sent_delete-from_key_escapes foo bar (102 ∷ 111 ∷ 112 ∷ []) Delete.new
      (unfold next_prefix in refl)
