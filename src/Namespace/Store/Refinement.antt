-- ===== src/Namespace/Store/Refinement.antt =====
-- The calls of a namespace client, against the store of the namespace alone.
use etcd_client.Prelude.{◌≡◌, refl, ◌∙◌, ap, false, inl, inr, List, [], ◌∷◌, ◌++◌}
use etcd_client.Bytes.{Bytes, IsBytes, starts_with}
use etcd_client.Error.{Foreign, Result, ok, err}
use etcd_client.Caller.{Session}
use etcd_client.VecExt.Edge.{carries}
use etcd_client.Namespace.{KvClientPrefix}
use etcd_client.Namespace.Store.{
  Store, Op, OpReply, Applies, StoreServer, IsPlainOp, ArePlainOps, Agrees, IsKey, Served, served,
  served_none, effect, AnswersOk,
}
use etcd_client.Namespace.Store.Effects.{sent_effect, effect-Agrees, effect_outside}
use etcd_client.Namespace.Store.Performs.{run, after, run-Performs}
use etcd_client.Namespace.Store.Answers.{run-AnswersOk}

-- What a request does to the store of the namespace, from what it does to the whole store.
transfer :
    {F : Foreign} {A : Type 0} (pfx : Bytes) (r : Result F A) (op : Op) (d d' e : Store)
    → IsBytes pfx
    → carries pfx ≡ false
    → IsPlainOp op
    → Agrees pfx d e
    → Applies r (sent_effect pfx op) d d'
    → (e' : Store) × Applies r (effect op) e e' × Agrees pfx d' e'
transfer pfx (ok a) op d d' e hp c plain agrees done = (
  effect op e,
  refl,
  λ x hx. ap (λ f. f (pfx ++ x)) done ∙ effect-Agrees pfx hp c op d e plain agrees x hx,
)
transfer pfx (err a) op d d' e hp c plain agrees (inl kept) =
    (e, inl refl, λ x hx. ap (λ f. f (pfx ++ x)) kept ∙ agrees x hx)
transfer pfx (err a) op d d' e hp c plain agrees (inr done) = (
  effect op e,
  inr refl,
  λ x hx. ap (λ f. f (pfx ++ x)) done ∙ effect-Agrees pfx hp c op d e plain agrees x hx,
)

unchanged :
    {F : Foreign} {A : Type 0} (pfx : Bytes) (r : Result F A) (op : Op) (d d' : Store) (x : Bytes)
    → Applies r (sent_effect pfx op) d d'
    → sent_effect pfx op d x ≡ d x
    → d' x ≡ d x
unchanged pfx (ok a) op d d' x done same = ap (λ f. f x) done ∙ same
unchanged pfx (err a) op d d' x (inl kept) same = ap (λ f. f x) kept
unchanged pfx (err a) op d d' x (inr done) same = ap (λ f. f x) done ∙ same

module _ {F : Foreign} {Token W : Type 0} (self : KvClientPrefix F Token W)
    (server : StoreServer self.kv) where
  open server use {data_of, range_keeps, range_returns, authenticate_keeps}

  abbrev stored : Session Token W → Store
  stored s = data_of s.world

  -- A call that succeeds or fails does, to the store of the namespace, what a server of that store
  -- alone may do.
  run-served :
      (op : Op) (s : Session Token W) (e : Store)
      → IsBytes self.pfx
      → carries self.pfx ≡ false
      → IsPlainOp op
      → Agrees self.pfx (stored s) e
      → (e' : Store) × Applies (run self op s).0 (effect op) e e'
        × AnswersOk op (run self op s).0 e
        × Agrees self.pfx (stored (after self op s)) e'
  run-served op s e hp c plain agrees =
      let (e', done, agrees') =
        transfer self.pfx (run self op s).0 op (stored s) (stored (after self op s)) e hp c plain
          agrees (run-Performs self server op plain s) in
      (e', done, run-AnswersOk self server op s e hp c plain agrees, agrees')

  -- On a server that puts, deletes and reads as documented, for a prefix whose increment carries out
  -- of no last byte 0xff: a put with a value, a get or a delete of a namespace client, the two in
  -- interval or prefix mode, changes no key that does not start with the prefix, whether the call
  -- succeeds or fails, and also when it is sent again with a new token.
  pub run_outside :
      (op : Op) (s : Session Token W) (x : Bytes)
      → IsBytes self.pfx
      → carries self.pfx ≡ false
      → IsPlainOp op
      → IsKey x
      → starts_with self.pfx x ≡ false
      → data_of (after self op s).world x ≡ data_of s.world x
  run_outside op s x hp c plain hx out =
      unchanged self.pfx (run self op s).0 op (stored s) (stored (after self op s)) x
        (run-Performs self server op plain s)
        (effect_outside self.pfx hp c op (stored s) x plain hx out)

  -- Calls one after the other, with their results; before and after each, other clients may change
  -- the token, the credentials and the store outside the namespace.
  pub data Calls
      : List Op → List (Result F OpReply) → Session Token W → Session Token W → Type 0 where
    no_calls : {s : Session Token W} → Calls [] [] s s
    call :
        {op : Op} {ops : List Op} {rs : List (Result F OpReply)} {s s' : Session Token W}
        → Calls ops rs (after self op s) s'
        → Calls (op ∷ ops) ((run self op s).0 ∷ rs) s s'
    others :
        {ops : List Op} {rs : List (Result F OpReply)} {s s1 s' : Session Token W}
        → ((x : Bytes)
            → IsKey x
            → data_of s1.world (self.pfx ++ x) ≡ data_of s.world (self.pfx ++ x))
        → Calls ops rs s1 s'
        → Calls ops rs s s'

  -- On a server that puts, deletes and reads as documented, for a prefix whose increment carries out
  -- of no last byte 0xff: puts with a value, gets and deletes of a namespace client, the two in
  -- interval or prefix mode, in any sequence, with changes by others outside the namespace between
  -- them, are the same sequence of operations on a store of the namespace alone, which has the keys
  -- without the prefix: each call that succeeds has had its effect once, also when it was sent twice
  -- because of an expired token, a get returns the values there, and each call that fails has had
  -- its effect or none.
  pub Calls-Served :
      {ops : List Op} {rs : List (Result F OpReply)} {s s' : Session Token W} (e : Store)
      → Calls ops rs s s'
      → IsBytes self.pfx
      → carries self.pfx ≡ false
      → ArePlainOps ops
      → Agrees self.pfx (data_of s.world) e
      → (e' : Store) × Served ops rs e e' × Agrees self.pfx (data_of s'.world) e'
  Calls-Served e no_calls hp c plain agrees = (e, served_none, agrees)
  Calls-Served e (call {op} {s = s} rest) hp c (plain, plains) agrees =
      let (e1, done, answered, agrees1) = run-served op s e hp c plain agrees in
      let (e', more, agrees') = Calls-Served e1 rest hp c plains agrees1 in
      (e', served done answered more, agrees')
  Calls-Served e (others same rest) hp c plain agrees =
      Calls-Served e rest hp c plain (λ x hx. same x hx ∙ agrees x hx)
