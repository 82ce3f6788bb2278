-- ===== src/Namespace/Requests.antt =====
-- The requests that a namespace client sends, against the namespace.
use etcd_client.Prelude.{
  ◌≡◌, refl, sym, ◌∙◌, ap, true, false, ◌&&◌, some, [], ◌∷◌, ◌++◌, is_empty, Bool-cases, inl, inr,
  subst,
}
use etcd_client.Bytes.{Bytes, IsBytes, starts_with, in_range, lex_leb}
use etcd_client.Bytes.Order.{
  starts_with-append_left, starts_with-append_false, starts_with→append, IsBytes-append,
  IsBytes-append_right,
}
use etcd_client.KeyRange
use etcd_client.KeyRange.{KeyRange, build, get_prefix}
use etcd_client.KeyRange.Build.{covers, covers-with_all_keys, covers-with_from_key, prefix_range}
use etcd_client.KeyRange.Prefix.{next_prefix, next_prefix_proper}
use etcd_client.VecExt.{strip_key_prefix, prefix_with, prefix_range_end_with}
use etcd_client.VecExt.Strip.{
  prefix_with-eq-append, strip_key_prefix-append, strip_key_prefix_other,
}
use etcd_client.VecExt.Edge.{carries}
use etcd_client.VecExt.Interval.{namespaced_range_exact}
use etcd_client.VecExt.Leak.{lex_leb-next_prefix, not-starts_with-next_prefix}
use etcd_client.Kv.Get
use etcd_client.Kv.Get.{GetOptions, PbRangeRequest}
use etcd_client.Kv.Delete
use etcd_client.Kv.Delete.{DeleteOptions, PbDeleteRequest}
use etcd_client.Namespace.{prefix_get, prefix_delete}

-- The range request that `get` of a namespace client sends for its key and options.
unfoldable pub sent_get : Bytes → Bytes → GetOptions → PbRangeRequest
sent_get pfx key options =
    Get.into_request (Get.with_key (prefix_with pfx key) (prefix_get pfx options))

unfoldable pub sent_delete : Bytes → Bytes → DeleteOptions → PbDeleteRequest
sent_delete pfx key options =
    Delete.into_request (Delete.with_key (prefix_with pfx key) (prefix_delete pfx options))

-- What a namespace client does to a key range.
abbrev namespaced : Bytes → Bytes → KeyRange → KeyRange
namespaced pfx key r = record r {
  key = prefix_with pfx key;
  range_end = prefix_range_end_with pfx r.range_end;
}

-- The mode is an interval or a prefix: neither `with_from_key` nor `with_all_keys`.
pub record IsBounded (r : KeyRange) : Type 0 where
  pub not_from_key : r.from_key_flag ≡ false
  pub not_all_keys : r.all_keys_flag ≡ false

namespaced_interval :
    (pfx key x : Bytes) (r : KeyRange)
    → IsBytes pfx
    → IsBytes x
    → carries pfx ≡ false
    → IsBounded r
    → r.prefix_flag ≡ false
    → covers (namespaced pfx key r) x
      ≡ (starts_with pfx x && covers (record r { key = key }) (strip_key_prefix pfx x))
unfolding covers build
namespaced_interval pfx key x r hp hx c b f =
    rw (b.not_all_keys, b.not_from_key, f) (namespaced_range_exact pfx key r.range_end x hp hx c)

covers_prefix_mode :
    (r : KeyRange) (x : Bytes)
    → IsBounded r
    → r.prefix_flag ≡ true
    → IsBytes r.key
    → IsBytes x
    → is_empty x ≡ false
    → covers r x ≡ starts_with r.key x
unfolding covers build
covers_prefix_mode r x b f hk hx h =
    rw (b.not_all_keys, b.not_from_key, f) (prefix_range r.key x hk hx h)

-- A key of a namespace is the prefix and a rest; the rest decides.
starts_with-prefixed :
    (pfx key x : Bytes)
    → starts_with (pfx ++ key) x ≡ (starts_with pfx x && starts_with key (strip_key_prefix pfx x))
starts_with-prefixed pfx key x = elim (Bool-cases (starts_with pfx x)) [
  | inr out ↦ rw out (starts_with-append_false pfx key x out)
  | inl found ↦
      let (k, e) = starts_with→append pfx x found in
      rw found (rw (e, strip_key_prefix-append pfx k) (starts_with-append_left pfx key k))
]

is_empty-strip : (pfx x : Bytes) → is_empty (strip_key_prefix pfx x) ≡ false → is_empty x ≡ false
unfolding strip_key_prefix starts_with
is_empty-strip [] [] h = h
is_empty-strip (a ∷ pfx) [] h = h
is_empty-strip pfx (b ∷ x) h = refl

IsBytes-strip : (pfx x : Bytes) → IsBytes x → IsBytes (strip_key_prefix pfx x)
IsBytes-strip pfx x h = elim (Bool-cases (starts_with pfx x)) [
  | inr out ↦ rw (strip_key_prefix_other pfx x out) h
  | inl found ↦
      let (k, e) = starts_with→append pfx x found in
      rw (e, strip_key_prefix-append pfx k) (IsBytes-append_right pfx k (subst IsBytes e h))
]

namespaced_prefix :
    (pfx key x : Bytes) (r : KeyRange)
    → IsBytes pfx
    → IsBytes key
    → IsBytes x
    → is_empty (strip_key_prefix pfx x) ≡ false
    → IsBounded r
    → r.prefix_flag ≡ true
    → covers (namespaced pfx key r) x
      ≡ (starts_with pfx x && covers (record r { key = key }) (strip_key_prefix pfx x))
namespaced_prefix pfx key x r hp hk hx n b f =
    covers_prefix_mode (namespaced pfx key r) x
      (record { not_from_key = b.not_from_key; not_all_keys = b.not_all_keys }) f
      (rw (prefix_with-eq-append pfx key) (IsBytes-append pfx key hp hk)) hx
      (is_empty-strip pfx x n)
    ∙ ap (λ t. starts_with t x) (prefix_with-eq-append pfx key)
    ∙ starts_with-prefixed pfx key x
    ∙ ap (λ t. starts_with pfx x && t)
        (sym (
          covers_prefix_mode (record r { key = key }) (strip_key_prefix pfx x)
            (record { not_from_key = b.not_from_key; not_all_keys = b.not_all_keys }) f hk
            (IsBytes-strip pfx x hx) n))

covers-namespaced :
    (pfx key x : Bytes) (r : KeyRange)
    → IsBytes pfx
    → IsBytes key
    → IsBytes x
    → carries pfx ≡ false
    → is_empty (strip_key_prefix pfx x) ≡ false
    → IsBounded r
    → covers (namespaced pfx key r) x
      ≡ (starts_with pfx x && covers (record r { key = key }) (strip_key_prefix pfx x))
covers-namespaced pfx key x r hp hk hx c n b = elim (Bool-cases r.prefix_flag) [
  | inl prefix ↦ namespaced_prefix pfx key x r hp hk hx n b prefix
  | inr interval ↦ namespaced_interval pfx key x r hp hx c b interval
]

module _ (pfx key x : Bytes) (hp : IsBytes pfx) (hk : IsBytes key) (hx : IsBytes x)
    (c : carries pfx ≡ false) (n : is_empty (strip_key_prefix pfx x) ≡ false) where
  -- In interval mode and in prefix mode the range request of a namespace client means exactly the keys
  -- of its namespace whose rest, behind the prefix, the caller's own request means. The rest is not
  -- empty, as no key is, and the increment of the prefix carries out of no last byte 0xff.
  pub sent_get_exact :
      (options : GetOptions)
      → IsBounded options.key_range
      → in_range (sent_get pfx key options).key (sent_get pfx key options).range_end x ≡ (
          starts_with pfx x
          && covers (record options.key_range { key = key }) (strip_key_prefix pfx x))
  unfolding sent_get Get.into_request Get.with_key Get.map_range_end KeyRange.with_key
  sent_get_exact options b =
      unfold covers in covers-namespaced pfx key x options.key_range hp hk hx c n b

  pub sent_delete_exact :
      (options : DeleteOptions)
      → IsBounded options.key_range
      → in_range (sent_delete pfx key options).key (sent_delete pfx key options).range_end x ≡ (
          starts_with pfx x
          && covers (record options.key_range { key = key }) (strip_key_prefix pfx x))
  unfolding sent_delete Delete.into_request Delete.with_key Delete.map_range_end KeyRange.with_key
  sent_delete_exact options b =
      unfold covers in covers-namespaced pfx key x options.key_range hp hk hx c n b

-- With `with_all_keys` a delete of a namespace client means every key of the store, in whatever
-- namespace it is.
pub sent_delete-all_keys_escapes :
    (pfx key x : Bytes) (options : DeleteOptions)
    → is_empty x ≡ false
    → in_range
        (sent_delete pfx key (Delete.with_all_keys options)).key
        (sent_delete pfx key (Delete.with_all_keys options)).range_end
        x
      ≡ true
unfolding sent_delete Delete.into_request Delete.with_key Delete.map_range_end KeyRange.with_key
    Delete.with_all_keys
sent_delete-all_keys_escapes pfx key x options n =
    unfold covers KeyRange.with_all_keys in
    covers-with_all_keys (namespaced pfx key options.key_range) x n

-- With `with_from_key` a delete of a namespace client, with a key, also means a key behind the
-- namespace, for every prefix that is not of bytes 0xff alone.
pub sent_delete-from_key_escapes :
    (pfx key e : Bytes) (options : DeleteOptions)
    → next_prefix pfx ≡ some e
    → (in_range
          (sent_delete pfx key (Delete.with_from_key options)).key
          (sent_delete pfx key (Delete.with_from_key options)).range_end
          e
        ≡ true)
      × (starts_with pfx e ≡ false)
unfolding sent_delete Delete.into_request Delete.with_key Delete.map_range_end KeyRange.with_key
    Delete.with_from_key
sent_delete-from_key_escapes pfx key e options next = (
  unfold covers KeyRange.with_from_key in
      covers-with_from_key (namespaced pfx key options.key_range) e
        (next_prefix_proper pfx e next).0
      ∙ ap (λ t. lex_leb t e) (prefix_with-eq-append pfx key)
      ∙ lex_leb-next_prefix pfx key e next,
  not-starts_with-next_prefix pfx e next,
)
