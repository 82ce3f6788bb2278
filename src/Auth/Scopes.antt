-- ===== src/Auth/Scopes.antt =====
-- The keys that a permission grants and the keys that its revocation names, after any calls on the
-- two.
use etcd_client.Prelude.{
  ◌≡◌, refl, sym, ◌∙◌, ap, ap₂, ℕ, false≢true, Bool, true, false, Option, some, List, [], ◌∷◌,
}
use etcd_client.Bytes.{Bytes}
use etcd_client.KeyRange
use etcd_client.KeyRange.{KeyRange}
use etcd_client.Permission
use etcd_client.Permission.{PermissionType, PbPermission, Permission, type_code, into_pb}
use etcd_client.Auth.Roles.{
  PbRevokeRequest, RoleRevokePermissionOptions, new_revoke, grant_options, revoke_with_name,
  revoke_with_key, revoke_with_range_end, revoke_with_prefix, revoke_with_from_key,
  revoke_with_all_keys, into_revoke_request,
}

-- The calls that both have.
pub data Scope : Type 0 where
  prefix from_key all_keys : Scope
  up_to : (range_end : Bytes) → Scope

abbrev pub widen : Scope → Permission → Permission
widen prefix perm = Permission.with_prefix perm
widen from_key perm = Permission.with_from_key perm
widen all_keys perm = Permission.with_all_keys perm
widen (up_to range_end) perm = Permission.with_range_end range_end perm

abbrev pub widen_revoke : Scope → RoleRevokePermissionOptions → RoleRevokePermissionOptions
widen_revoke prefix options = revoke_with_prefix options
widen_revoke from_key options = revoke_with_from_key options
widen_revoke all_keys options = revoke_with_all_keys options
widen_revoke (up_to range_end) options = revoke_with_range_end range_end options

-- The calls in order.
abbrev pub widen_by : List Scope → Permission → Permission
widen_by [] perm = perm
widen_by (call ∷ calls) perm = widen_by calls (widen call perm)

abbrev pub widen_revoke_by : List Scope → RoleRevokePermissionOptions → RoleRevokePermissionOptions
widen_revoke_by [] options = options
widen_revoke_by (call ∷ calls) options = widen_revoke_by calls (widen_revoke call options)

abbrev pub has_all_keys : List Scope → Bool
has_all_keys [] = false
has_all_keys (all_keys ∷ calls) = true
has_all_keys (call ∷ calls) = has_all_keys calls

-- The permission in the request of `role_grant_permission`.
abbrev pub granted : Permission → Option PbPermission
granted perm = (grant_options "" perm).perm

-- The permission that the request of `role_revoke_permission` names.
abbrev pub revoked : ℕ → Bytes → RoleRevokePermissionOptions → Option PbPermission
revoked code key options =
    let request : PbRevokeRequest =
      into_revoke_request (revoke_with_key key (revoke_with_name "" options)) in
    some (record { perm_type = code; key = request.key; range_end = request.range_end })

-- The options of a revocation on which the calls of a permission were made.
abbrev options_of : Permission → RoleRevokePermissionOptions
options_of perm = record new_revoke {
  key_range = record new_revoke.key_range {
    range_end = perm.inner.range_end;
    prefix_flag = perm.prefix_flag;
    from_key_flag = perm.from_key_flag;
  };
}

widen_revoke_by-options_of :
    (calls : List Scope) (perm : Permission)
    → has_all_keys calls ≡ false
    → widen_revoke_by calls (options_of perm) ≡ options_of (widen_by calls perm)
unfolding Permission.with_prefix Permission.with_from_key Permission.with_range_end
    revoke_with_prefix revoke_with_from_key revoke_with_range_end KeyRange.with_range
    KeyRange.with_prefix KeyRange.with_from_key
widen_revoke_by-options_of [] perm h = refl
widen_revoke_by-options_of (all_keys ∷ calls) perm h = absurd (false≢true (sym h))
widen_revoke_by-options_of (call ∷ calls) perm h =
    widen_revoke_by-options_of calls (widen call perm) h

widen_by_keeps :
    (calls : List Scope) (perm : Permission)
    → has_all_keys calls ≡ false
    → ((widen_by calls perm).inner.perm_type ≡ perm.inner.perm_type)
      × ((widen_by calls perm).inner.key ≡ perm.inner.key)
unfolding Permission.with_prefix Permission.with_from_key Permission.with_range_end
widen_by_keeps [] perm h = (refl, refl)
widen_by_keeps (all_keys ∷ calls) perm h = absurd (false≢true (sym h))
widen_by_keeps (call ∷ calls) perm h = widen_by_keeps calls (widen call perm) h

granted-widen :
    (last : Scope) (perm : Permission)
    → granted (widen last perm)
      ≡ revoked perm.inner.perm_type perm.inner.key (widen_revoke last (options_of perm))
unfolding grant_options into_pb KeyRange.build into_revoke_request revoke_with_key revoke_with_name
    KeyRange.with_key KeyRange.with_range Permission.with_prefix Permission.with_from_key
    Permission.with_all_keys Permission.with_range_end revoke_with_prefix revoke_with_from_key
    revoke_with_all_keys revoke_with_range_end KeyRange.with_prefix KeyRange.with_from_key
    KeyRange.with_all_keys
granted-widen prefix perm = refl
granted-widen from_key perm = refl
granted-widen all_keys perm = refl
granted-widen (up_to range_end) perm = refl

-- For a permission and its revocation on which the same calls were made, in the same order and with
-- `with_all_keys` as the last of them if at all: the request that grants the permission and the
-- request that revokes it name the same key and the same range end.
pub granted-eq-revoked :
    (calls : List Scope) (last : Scope) (perm_type : PermissionType) (key : Bytes)
    → has_all_keys calls ≡ false
    → granted (widen last (widen_by calls (Permission.new perm_type key)))
      ≡ revoked (type_code perm_type) key (widen_revoke last (widen_revoke_by calls new_revoke))
unfolding Permission.new
granted-eq-revoked calls last perm_type key h =
    let perm : Permission = Permission.new perm_type key in
    let (type_kept, key_kept) = widen_by_keeps calls perm h in
    granted-widen last (widen_by calls perm)
    ∙ ap₂ (λ t k. revoked t k (widen_revoke last (options_of (widen_by calls perm)))) type_kept
        key_kept
    ∙ ap (λ options. revoked (type_code perm_type) key (widen_revoke last options))
        (sym (widen_revoke_by-options_of calls perm h))
