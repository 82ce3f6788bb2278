-- ===== src/Lock.antt =====
-- src/rpc/lock.rs: the options, the responses and the client of the lock service.
use etcd_client.Prelude.{none, ℤ, pos, Bool, Option, []}
use etcd_client.Bytes.{Bytes}
use etcd_client.Rpc.{ResponseHeader, HeaderResponse, unwrap_or}
use etcd_client.Error.{Foreign}
use etcd_client.Exec.{Exec}
use etcd_client.Caller.{Session, AuthService, do_call}
use etcd_client.Kv.Client.{Unary, unary}

pub record LockOptions : Type 0 where
  pub name : Bytes
  pub lease : ℤ

abbrev pub new_lock : LockOptions
new_lock = record { name = []; lease = pos 0 }

unfoldable pub lock_with_name : Bytes → LockOptions → LockOptions
lock_with_name name self = record self { name = name }

unfoldable pub lock_with_lease : ℤ → LockOptions → LockOptions
lock_with_lease lease self = record self { lease = lease }

pub record LockResponse : Type 0 where
  pub header : Option ResponseHeader
  pub key : Bytes

unfoldable pub lock_take_header : LockResponse → LockResponse × Option ResponseHeader
lock_take_header self = (record self { header = none }, self.header)

pub record UnlockOptions : Type 0 where
  pub key : Bytes

abbrev pub new_unlock : UnlockOptions
new_unlock = record { key = [] }

unfoldable pub unlock_with_key : Bytes → UnlockOptions → UnlockOptions
unlock_with_key key self = record self { key = key }

abbrev pub UnlockResponse : Type 0
UnlockResponse = HeaderResponse

pub record LockService (F : Foreign) (S : Type 0) : Type 0 where
  pub lock : Unary F S LockOptions LockResponse
  pub unlock : Unary F S UnlockOptions UnlockResponse

module _ {F : Foreign} {Token W : Type 0} (auth : AuthService F Token W)
    (stub : LockService F (Session Token W)) (refresh_expired_token : Bool) where
  unfoldable pub lock : Bytes → Option LockOptions → Exec F (Session Token W) LockResponse
  lock name options =
      do_call auth refresh_expired_token (lock_with_name name (unwrap_or new_lock options))
        (unary stub.lock)

  unfoldable pub unlock : Bytes → Exec F (Session Token W) UnlockResponse
  unlock key =
      do_call auth refresh_expired_token (unlock_with_key key new_unlock) (unary stub.unlock)
