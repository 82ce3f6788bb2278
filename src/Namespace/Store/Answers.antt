-- ===== src/Namespace/Store/Answers.antt =====
-- What the calls of a namespace client return.
use etcd_client.Prelude.{◌≡◌, sym, ◌∙◌, ap, false, inl, inr, Option}
use etcd_client.Bytes.{Bytes, IsBytes, in_range}
use etcd_client.Error.{Foreign, ok, Result-cases}
use etcd_client.Exec.{continue-pure_ok}
use etcd_client.Caller.{Session}
use etcd_client.Rpc.{unwrap_or}
use etcd_client.VecExt.Edge.{carries}
use etcd_client.Kv.Get
use etcd_client.Kv.Get.{GetOptions, GetResponse, strip_kvs_prefix}
use etcd_client.Kv.Client
use etcd_client.Kv.Client.{unary}
use etcd_client.Namespace.{KvClientPrefix, put, get, delete, prefixed_key, prefix_get, map_option}
use etcd_client.Namespace.Isolation.{IsPlain-sent_get}
use etcd_client.Namespace.Requests.{sent_get}
use etcd_client.Namespace.Store.{
  Store, Op, put_op, get_op, delete_op, get_reply, StoreServer, IsPlainOp, Agrees, AnswersOk,
  Answers, lookup, restrict, IsRead,
}
use etcd_client.Namespace.Store.Calls.{do_call_reads}
use etcd_client.Namespace.Store.Performs.{run, sent_get_options}
use etcd_client.Namespace.Store.Lookup.{lookup_stripped}

module _ {F : Foreign} {Token W : Type 0} (self : KvClientPrefix F Token W)
    (server : StoreServer self.kv) where
  open server use {data_of, range_keeps, range_returns, authenticate_keeps}

  abbrev stored : Session Token W → Store
  stored s = data_of s.world

  raw_answer :
      (key : Bytes) (options : Option GetOptions) (s : Session Token W) (raw : GetResponse)
      → (Client.get self.kv (prefixed_key self key) (map_option (prefix_get self.pfx) options) s).0
        ≡ ok raw
      → (s' : Session Token W) × (stored s' ≡ stored s)
        × ((unary self.kv.stub.range (sent_get self.pfx key (unwrap_or Get.new options)) s').0
            ≡ ok raw)
  unfolding Client.get sent_get prefixed_key
  raw_answer key options s raw got =
      do_call_reads self.kv.auth data_of authenticate_keeps _ _ (range_keeps _)
        self.kv.refresh_expired_token s raw (rw (sent_get_options self.pfx options) at got)

  IsRead-sent_get :
      (key : Bytes) (options : GetOptions)
      → IsRead options.req
      → IsRead (sent_get self.pfx key options)
  unfolding sent_get Get.into_request Get.with_key Get.map_range_end
  IsRead-sent_get key options read = record {
    plain = IsPlain-sent_get self.pfx key options read.plain;
    serializable = read.serializable;
    keys_only = read.keys_only;
  }

  -- What a `get` of the client returns is the answer to its operation on the store of the namespace.
  get-Answers :
      (key : Bytes) (options : Option GetOptions) (s : Session Token W) (e : Store)
      (resp : GetResponse)
      → IsBytes self.pfx
      → carries self.pfx ≡ false
      → IsPlainOp (get_op key options)
      → Agrees self.pfx (stored s) e
      → (get self key options s).0 ≡ ok resp
      → Answers (get_op key options) (get_reply resp) e
  unfolding get strip_kvs_prefix
  get-Answers key options s e resp hp c (hk, b, read) agrees answered x hx =
      let (raw, got, stripped) = continue-pure_ok _ (strip_kvs_prefix self.pfx) _ resp answered in
      let (s', same, replied) = raw_answer key options s raw got in
      let (keyed, returned) =
        range_returns _ s' raw (IsRead-sent_get key (unwrap_or Get.new options) read) replied in
      ap (λ r. lookup x r.kvs) (sym stripped)
      ∙ lookup_stripped self.pfx key (unwrap_or Get.new options) hp hk c b (stored s) raw.kvs keyed
          (λ y hy.
            returned y hy
            ∙ ap
                (λ d.
                  restrict
                    (in_range (sent_get self.pfx key (unwrap_or Get.new options)).key
                      (sent_get self.pfx key (unwrap_or Get.new options)).range_end)
                    d y)
                same)
          e x agrees hx

  -- What a call returns is true of the store of the namespace before it.
  pub run-AnswersOk :
      (op : Op) (s : Session Token W) (e : Store)
      → IsBytes self.pfx
      → carries self.pfx ≡ false
      → IsPlainOp op
      → Agrees self.pfx (stored s) e
      → AnswersOk op (run self op s).0 e
  unfolding run
  run-AnswersOk (put_op key value options) s e hp c plain agrees =
      elim (Result-cases (put self key value options s).0) [
        | inl (resp, answered) ↦ rw answered tt
        | inr (x, failed) ↦ rw failed tt
      ]
  run-AnswersOk (get_op key options) s e hp c plain agrees =
      elim (Result-cases (get self key options s).0) [
        | inl (resp, answered) ↦
            rw answered (get-Answers key options s e resp hp c plain agrees answered)
        | inr (x, failed) ↦ rw failed tt
      ]
  run-AnswersOk (delete_op key options) s e hp c plain agrees =
      elim (Result-cases (delete self key options s).0) [
        | inl (resp, answered) ↦ rw answered tt
        | inr (x, failed) ↦ rw failed tt
      ]
