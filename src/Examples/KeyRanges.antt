-- ===== src/Examples/KeyRanges.antt =====
-- The unit test of `get_prefix` in src/rpc/mod.rs, and key ranges on concrete keys.
use etcd_client.Prelude.{◌≡◌, refl, true, [], ◌∷◌}
use etcd_client.Bytes.{in_range, starts_with, lex_leb}
use etcd_client.KeyRange.{
  get_prefix, new, with_prefix, with_from_key, with_all_keys, with_range, KeyRange,
}
use etcd_client.KeyRange.Prefix.{in_range-get_prefix}
use etcd_client.KeyRange.Build.{covers, covers_modes}
use etcd_client.Examples.{foo, foobar, foo-IsBytes, foobar-IsBytes}

get_prefix_foo1 : get_prefix (102 ∷ 111 ∷ 111 ∷ 49 ∷ []) ≡ 102 ∷ 111 ∷ 111 ∷ 50 ∷ []
unfolding get_prefix
get_prefix_foo1 = refl

get_prefix_last : get_prefix (0xff ∷ []) ≡ 0 ∷ []
unfolding get_prefix
get_prefix_last = refl

get_prefix_carry : get_prefix (102 ∷ 111 ∷ 111 ∷ 0xff ∷ []) ≡ 102 ∷ 111 ∷ 112 ∷ []
unfolding get_prefix
get_prefix_carry = refl

in_range-get_prefix_example : in_range foo (get_prefix foo) foobar ≡ starts_with foo foobar
in_range-get_prefix_example = in_range-get_prefix foo foobar foo-IsBytes foobar-IsBytes

abbrev key_range : KeyRange
key_range = record new { key = foo }

covers_modes_example :
    (covers (with_prefix key_range) foobar ≡ starts_with foo foobar)
    × (covers (with_from_key key_range) foobar ≡ lex_leb foo foobar)
    × (covers (with_all_keys key_range) foobar ≡ true)
    × (covers (with_range foobar key_range) foobar ≡ in_range foo foobar foobar)
covers_modes_example = covers_modes key_range foobar foobar foo-IsBytes foobar-IsBytes refl
