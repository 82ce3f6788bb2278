-- ===== src/Namespace/Store/Performs.antt =====
-- What each call of a namespace client does to the whole store.
use etcd_client.Prelude.{◌≡◌, refl, inl, Option, none, some, [], ◌∷◌}
use etcd_client.Bytes.{Bytes, is_edge}
use etcd_client.Error.{Foreign, Result, ok, err}
use etcd_client.Exec.{Exec, continue, pure, ◌>>=◌}
use etcd_client.Caller.{Session}
use etcd_client.Rpc.{unwrap_or}
use etcd_client.VecExt.{prefix_with, prefix_range_end_with}
use etcd_client.Kv.Put
use etcd_client.Kv.Put.{PutOptions, strip_prev_key_prefix}
use etcd_client.Kv.Get
use etcd_client.Kv.Get.{GetOptions, GetResponse, strip_kvs_prefix}
use etcd_client.Kv.Delete
use etcd_client.Kv.Delete.{DeleteOptions, strip_prev_kvs_prefix}
use etcd_client.Kv.Client
use etcd_client.Kv.Client.{unary}
use etcd_client.Namespace.{
  KvClientPrefix, put, get, delete, prefixed_key, prefix_get, prefix_delete, map_option,
}
use etcd_client.Namespace.Requests.{sent_delete}
use etcd_client.Namespace.Store.{
  Store, Op, put_op, get_op, delete_op, OpReply, put_reply, get_reply, delete_reply, Applies,
  StoreServer, IsPlainOp,
}
use etcd_client.Namespace.Store.Effects.{sent_effect, put_at_idem, remove_idem}
use etcd_client.Namespace.Store.Calls.{do_call-Applies}

Applies_kept :
    {F : Foreign} {A : Type 0} (r : Result F A) (d d' : Store) → d' ≡ d → Applies r (λ e. e) d d'
Applies_kept (ok a) d d' e = e
Applies_kept (err x) d d' e = inl e

module _ {F : Foreign} {Token W : Type 0} where
  -- A call of the client.
  unfoldable pub run : KvClientPrefix F Token W → Op → Exec F (Session Token W) OpReply
  run self (put_op key value options) = do resp ← put self key value options; pure (put_reply resp)
  run self (get_op key options) = do resp ← get self key options; pure (get_reply resp)
  run self (delete_op key options) = do resp ← delete self key options; pure (delete_reply resp)

  -- The state after a call.
  abbrev pub after : KvClientPrefix F Token W → Op → Session Token W → Session Token W
  after self op s = (run self op s).1

  Applies_mapped :
      {A B : Type 0} (data_of : W → Store) (m : Result F A × Session Token W) (g : A → B)
      (f : Store → Store) (d : Store)
      → Applies m.0 f d (data_of m.1.world)
      → Applies
          (continue m.0 (λ a. pure (g a)) m.1).0
          f
          d
          (data_of (continue m.0 (λ a. pure (g a)) m.1).1.world)
  Applies_mapped data_of (ok a, s) g f d h = h
  Applies_mapped data_of (err e, s) g f d h = h

-- `None` for the options is the default, whose range end a prefix leaves as it is.
pub sent_get_options :
    (pfx : Bytes) (options : Option GetOptions)
    → unwrap_or Get.new (map_option (prefix_get pfx) options)
      ≡ prefix_get pfx (unwrap_or Get.new options)
unfolding Get.map_range_end prefix_range_end_with is_edge
sent_get_options [] none = refl
sent_get_options (a ∷ pfx) none = refl
sent_get_options pfx (some options) = refl

sent_delete_options :
    (pfx : Bytes) (options : Option DeleteOptions)
    → unwrap_or Delete.new (map_option (prefix_delete pfx) options)
      ≡ prefix_delete pfx (unwrap_or Delete.new options)
unfolding Delete.map_range_end prefix_range_end_with is_edge
sent_delete_options [] none = refl
sent_delete_options (a ∷ pfx) none = refl
sent_delete_options pfx (some options) = refl

module _ {F : Foreign} {Token W : Type 0} (self : KvClientPrefix F Token W)
    (server : StoreServer self.kv) where
  open server use {
    data_of, put_sets, delete_removes, range_keeps, range_returns, authenticate_keeps,
  }

  abbrev pub stored : Session Token W → Store
  stored s = data_of s.world

  -- An action applies the effect of an operation.
  abbrev pub Performs : {A : Type 0} → Exec F (Session Token W) A → Op → Type 0
  Performs m op =
      (s : Session Token W) → Applies (m s).0 (sent_effect self.pfx op) (stored s) (stored (m s).1)

  put-Performs :
      (key value : Bytes) (options : Option PutOptions)
      → IsPlainOp (put_op key value options)
      → Performs
          (Client.put self.kv (prefixed_key self key) value options)
          (put_op key value options)
  unfolding Client.put sent_effect prefixed_key Put.with_kv
  put-Performs key value options plain =
      do_call-Applies self.kv.auth data_of authenticate_keeps _ _ _
        (put_at_idem (prefix_with self.pfx key) value)
        (λ s.
          put_sets (Put.with_kv (prefixed_key self key) value (unwrap_or Put.new options)) s plain)
        self.kv.refresh_expired_token

  get-Performs :
      (key : Bytes) (options : Option GetOptions)
      → Performs
          (Client.get self.kv (prefixed_key self key) (map_option (prefix_get self.pfx) options))
          (get_op key options)
  unfolding Client.get sent_effect
  get-Performs key options =
      do_call-Applies self.kv.auth data_of authenticate_keeps _ _ _ (λ d. refl)
        (λ s. Applies_kept _ _ _ (range_keeps _ s)) self.kv.refresh_expired_token

  delete-Performs :
      (key : Bytes) (options : Option DeleteOptions)
      → Performs
          (Client.delete self.kv
            (prefixed_key self key)
            (map_option (prefix_delete self.pfx) options))
          (delete_op key options)
  unfolding Client.delete sent_effect sent_delete prefixed_key
  delete-Performs key options = rw (sent_delete_options self.pfx options) (
      do_call-Applies self.kv.auth data_of authenticate_keeps _ _ _ (remove_idem _)
        (delete_removes _) self.kv.refresh_expired_token)

  -- A call does to the store what its request does, or, if it fails, that or nothing.
  pub run-Performs : (op : Op) → IsPlainOp op → Performs (run self op) op
  unfolding run put get delete
  run-Performs (put_op key value options) plain s = Applies_mapped data_of _ put_reply _ _ (
      Applies_mapped data_of _ (strip_prev_key_prefix self.pfx) _ _
        (put-Performs key value options plain s))
  run-Performs (get_op key options) plain s =
      Applies_mapped data_of _ get_reply _ _
        (Applies_mapped data_of _ (strip_kvs_prefix self.pfx) _ _ (get-Performs key options s))
  run-Performs (delete_op key options) plain s = Applies_mapped data_of _ delete_reply _ _ (
      Applies_mapped data_of _ (strip_prev_kvs_prefix self.pfx) _ _ (delete-Performs key options s))
