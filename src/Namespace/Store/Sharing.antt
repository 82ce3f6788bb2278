-- ===== src/Namespace/Store/Sharing.antt =====
-- Two namespaces on one store.
use etcd_client.Prelude.{◌≡◌, false, List, [], ◌∷◌, ◌++◌, arith}
use etcd_client.Bytes.{Bytes, IsBytes, starts_with}
use etcd_client.Error.{Foreign, Result}
use etcd_client.Caller.{Session}
use etcd_client.VecExt.Edge.{carries}
use etcd_client.Kv.Client.{KvClient}
use etcd_client.Namespace.{KvClientPrefix}
use etcd_client.Namespace.Store.{Store, Op, OpReply, StoreServer, ArePlainOps, Agrees, Served}
use etcd_client.Namespace.Store.Effects.{IsKey-append}
use etcd_client.Namespace.Store.Performs.{run, after}
use etcd_client.Namespace.Store.Refinement.{
  run_outside, Calls, no_calls, call, others, Calls-Served,
}

-- Neither prefix is a prefix of the other.
pub record AreApart (p q : Bytes) : Type 0 where
  pub left : starts_with p q ≡ false
  pub right : starts_with q p ≡ false

apart_outside :
    (p q x : Bytes)
    → starts_with p q ≡ false
    → starts_with q p ≡ false
    → starts_with q (p ++ x) ≡ false
unfolding starts_with
apart_outside [] q x l r = ground arith
apart_outside (a ∷ p) [] x l r = ground arith
apart_outside (a ∷ p) (b ∷ q) x l r = ground (arith, apart_outside p q x)

pub record IsNamespace (p : Bytes) : Type 0 where
  pub bytes : IsBytes p
  pub no_carry : carries p ≡ false

module _ {F : Foreign} {Token W : Type 0} (kv : KvClient F Token W) (server : StoreServer kv)
    (p q : Bytes) where
  abbrev left_client : KvClientPrefix F Token W
  left_client = record { pfx = p; kv = kv }

  abbrev right_client : KvClientPrefix F Token W
  right_client = record { pfx = q; kv = kv }

  -- Calls of both clients in any order, with the results of each.
  pub data Both
      : List Op
        → List (Result F OpReply)
        → List Op
        → List (Result F OpReply)
        → Session Token W
        → Session Token W
        → Type 0 where
    neither : {s : Session Token W} → Both [] [] [] [] s s
    left_call :
        {op : Op} {ops ops' : List Op} {rs rs' : List (Result F OpReply)} {s s' : Session Token W}
        → Both ops rs ops' rs' (after left_client op s) s'
        → Both (op ∷ ops) ((run left_client op s).0 ∷ rs) ops' rs' s s'
    right_call :
        {op : Op} {ops ops' : List Op} {rs rs' : List (Result F OpReply)} {s s' : Session Token W}
        → Both ops rs ops' rs' (after right_client op s) s'
        → Both ops rs (op ∷ ops') ((run right_client op s).0 ∷ rs') s s'

  module _ (hp : IsNamespace p) (hq : IsNamespace q) (apart : AreApart p q) where
    both-left :
        {ops ops' : List Op} {rs rs' : List (Result F OpReply)} {s s' : Session Token W}
        → Both ops rs ops' rs' s s'
        → ArePlainOps ops'
        → Calls left_client server ops rs s s'
    both-left neither plain = no_calls
    both-left (left_call rest) plain = call (both-left rest plain)
    both-left (right_call {op} {s = s} rest) (plain, plains) =
        others
          (λ x hx.
            run_outside right_client server op s (p ++ x) hq.bytes hq.no_carry plain
              (IsKey-append p x hp.bytes hx) (apart_outside p q x apart.left apart.right))
          (both-left rest plains)

    both-right :
        {ops ops' : List Op} {rs rs' : List (Result F OpReply)} {s s' : Session Token W}
        → Both ops rs ops' rs' s s'
        → ArePlainOps ops
        → Calls right_client server ops' rs' s s'
    both-right neither plain = no_calls
    both-right (right_call rest) plain = call (both-right rest plain)
    both-right (left_call {op} {s = s} rest) (plain, plains) =
        others
          (λ x hx.
            run_outside left_client server op s (q ++ x) hp.bytes hp.no_carry plain
              (IsKey-append q x hq.bytes hx) (apart_outside q p x apart.right apart.left))
          (both-right rest plains)

    -- On a server that puts, deletes and reads as documented, for two prefixes of which neither is a
    -- prefix of the other and whose increments carry out of no last byte 0xff: the calls of the two
    -- namespace clients, in any order, are for each client its own calls on a store that it has for
    -- itself. The calls are puts with a value, and gets and deletes in interval or prefix mode.
    pub Both-Served :
        {ops ops' : List Op} {rs rs' : List (Result F OpReply)} {s s' : Session Token W}
        (e e' : Store)
        → Both ops rs ops' rs' s s'
        → ArePlainOps ops
        → ArePlainOps ops'
        → Agrees p (server.data_of s.world) e
        → Agrees q (server.data_of s.world) e'
        → ((f : Store) × Served ops rs e f × Agrees p (server.data_of s'.world) f)
          × ((f' : Store) × Served ops' rs' e' f' × Agrees q (server.data_of s'.world) f')
    Both-Served e e' both plain plain' agrees agrees' = (
      Calls-Served left_client server e (both-left both plain') hp.bytes hp.no_carry plain agrees,
      Calls-Served right_client server e' (both-right both plain) hq.bytes hq.no_carry plain'
          agrees',
    )
