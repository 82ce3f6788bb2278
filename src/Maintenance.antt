-- ===== src/Maintenance.antt =====
-- src/rpc/maintenance.rs: the options, the responses and the client of the maintenance service.
use etcd_client.Prelude.{ℕ, ℤ, pos, String, Bool, Option, none, List}
use etcd_client.Bytes.{Bytes}
use etcd_client.Rpc.{ResponseHeader, HeaderResponse, unwrap_or}
use etcd_client.Error.{Foreign}
use etcd_client.Exec.{Exec}
use etcd_client.Caller.{Session, AuthService, do_call}
use etcd_client.Kv.Client.{Answer, Unary, unary, into_inner}

pub data AlarmAction : Type 0 where
  get_action activate deactivate : AlarmAction

-- `alarm_action as i32`
abbrev pub action_code : AlarmAction → ℕ
action_code get_action = 0
action_code activate = 1
action_code deactivate = 2

pub data AlarmType : Type 0 where
  none_type no_space corrupt : AlarmType

-- `alarm_type as i32`
abbrev pub alarm_code : AlarmType → ℤ
alarm_code none_type = pos 0
alarm_code no_space = pos 1
alarm_code corrupt = pos 2

pub record AlarmOptions : Type 0 where
  pub action : ℕ
  pub member_id : ℕ
  pub alarm : ℤ

abbrev pub new_alarm : AlarmOptions
new_alarm = record { action = action_code get_action; member_id = 0; alarm = alarm_code none_type }

unfoldable pub with_action_and_type : AlarmAction → AlarmType → AlarmOptions → AlarmOptions
with_action_and_type alarm_action alarm_type self = record self {
  action = action_code alarm_action;
  alarm = alarm_code alarm_type;
}

unfoldable pub with_member : ℕ → AlarmOptions → AlarmOptions
with_member member self = record self { member_id = member }

-- The messages that name an alarm, as the server sends them: `alarm` is any `i32`.
pub record PbAlarmMember : Type 0 where
  pub member_id : ℕ
  pub alarm : ℤ

pub record AlarmResponse : Type 0 where
  pub header : Option ResponseHeader
  pub alarms : List PbAlarmMember

unfoldable pub alarm_take_header : AlarmResponse → AlarmResponse × Option ResponseHeader
alarm_take_header self = (record self { header = none }, self.header)

pub record StatusResponse : Type 0 where
  pub header : Option ResponseHeader
  pub version : String
  pub db_size : ℤ
  pub leader : ℕ
  pub raft_index : ℕ
  pub raft_term : ℕ
  pub raft_applied_index : ℕ
  pub errors : List String
  pub db_size_in_use : ℤ
  pub is_learner : Bool

unfoldable pub status_take_header : StatusResponse → StatusResponse × Option ResponseHeader
status_take_header self = (record self { header = none }, self.header)

abbrev pub DefragmentResponse : Type 0
DefragmentResponse = HeaderResponse

pub record HashResponse : Type 0 where
  pub header : Option ResponseHeader
  pub hash : ℕ

unfoldable pub hash_take_header : HashResponse → HashResponse × Option ResponseHeader
hash_take_header self = (record self { header = none }, self.header)

pub record HashKvOptions : Type 0 where
  pub revision : ℤ

pub record HashKvResponse : Type 0 where
  pub header : Option ResponseHeader
  pub hash : ℕ
  pub compact_revision : ℤ

unfoldable pub hash_kv_take_header : HashKvResponse → HashKvResponse × Option ResponseHeader
hash_kv_take_header self = (record self { header = none }, self.header)

pub record SnapshotResponse : Type 0 where
  pub header : Option ResponseHeader
  pub remaining_bytes : ℕ
  pub blob : Bytes

unfoldable pub snapshot_take_header : SnapshotResponse → SnapshotResponse × Option ResponseHeader
snapshot_take_header self = (record self { header = none }, self.header)

pub record MoveLeaderOptions : Type 0 where
  pub target_id : ℕ

abbrev pub new_move_leader : MoveLeaderOptions
new_move_leader = record { target_id = 0 }

unfoldable pub with_target_id : ℕ → MoveLeaderOptions → MoveLeaderOptions
with_target_id target_id self = record self { target_id = target_id }

abbrev pub MoveLeaderResponse : Type 0
MoveLeaderResponse = HeaderResponse

-- `Stream` is the stream of a snapshot.
pub record MaintenanceService (F : Foreign) (S : Type 0) : Type 1 where
  pub Stream : Type 0
  pub alarm : Unary F S AlarmOptions AlarmResponse
  pub status : Unary F S (Unit {0}) StatusResponse
  pub defragment : Unary F S (Unit {0}) DefragmentResponse
  pub hash : Unary F S (Unit {0}) HashResponse
  pub hash_kv : Unary F S HashKvOptions HashKvResponse
  pub snapshot : Unary F S (Unit {0}) Stream
  pub move_leader : Unary F S MoveLeaderOptions MoveLeaderResponse
  pub message : Stream → S → Answer F (Option SnapshotResponse) × S

module _ {F : Foreign} {Token W : Type 0} (auth : AuthService F Token W)
    (stub : MaintenanceService F (Session Token W)) (refresh_expired_token : Bool) where
  unfoldable pub alarm :
      AlarmAction → AlarmType → Option AlarmOptions → Exec F (Session Token W) AlarmResponse
  alarm alarm_action alarm_type options =
      do_call auth refresh_expired_token
        (with_action_and_type alarm_action alarm_type (unwrap_or new_alarm options))
        (unary stub.alarm)

  unfoldable pub status : Exec F (Session Token W) StatusResponse
  status = do_call auth refresh_expired_token tt (unary stub.status)

  unfoldable pub defragment : Exec F (Session Token W) DefragmentResponse
  defragment = do_call auth refresh_expired_token tt (unary stub.defragment)

  unfoldable pub hash : Exec F (Session Token W) HashResponse
  hash = do_call auth refresh_expired_token tt (unary stub.hash)

  unfoldable pub hash_kv : ℤ → Exec F (Session Token W) HashKvResponse
  hash_kv revision =
      do_call auth refresh_expired_token (record { revision = revision }) (unary stub.hash_kv)

  unfoldable pub snapshot : Exec F (Session Token W) stub.Stream
  snapshot = do_call auth refresh_expired_token tt (unary stub.snapshot)

  unfoldable pub move_leader : ℕ → Exec F (Session Token W) MoveLeaderResponse
  move_leader target_id =
      do_call auth refresh_expired_token (with_target_id target_id new_move_leader)
        (unary stub.move_leader)

  -- `SnapshotStreaming::message`
  unfoldable pub snapshot_message : stub.Stream → Exec F (Session Token W) (Option SnapshotResponse)
  snapshot_message stream s = let (answer, s') = stub.message stream s in (into_inner answer, s')
