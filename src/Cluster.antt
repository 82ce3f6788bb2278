-- ===== src/Cluster.antt =====
-- src/rpc/cluster.rs: the options, the responses and the client of the cluster service.
use etcd_client.Prelude.{none, ℕ, String, Bool, true, false, Option, List, []}
use etcd_client.Rpc.{ResponseHeader, unwrap_or}
use etcd_client.Error.{Foreign}
use etcd_client.Exec.{Exec}
use etcd_client.Caller.{Session, AuthService, do_call}
use etcd_client.Kv.Client.{Unary, unary}

pub record MemberAddOptions : Type 0 where
  pub peer_urls : List String
  pub is_learner : Bool

abbrev pub new_member_add : MemberAddOptions
new_member_add = record { peer_urls = []; is_learner = false }

unfoldable pub with_urls : List String → MemberAddOptions → MemberAddOptions
with_urls urls self = record self { peer_urls = urls }

unfoldable pub with_is_learner : MemberAddOptions → MemberAddOptions
with_is_learner self = record self { is_learner = true }

pub record Member : Type 0 where
  pub id : ℕ
  pub name : String
  pub peer_urls : List String
  pub client_urls : List String
  pub is_learner : Bool

pub record MemberAddResponse : Type 0 where
  pub header : Option ResponseHeader
  pub member : Option Member
  pub members : List Member

unfoldable pub member_add_take_header :
    MemberAddResponse → MemberAddResponse × Option ResponseHeader
member_add_take_header self = (record self { header = none }, self.header)

pub record MemberRemoveOptions : Type 0 where
  pub id : ℕ

abbrev pub new_member_remove : MemberRemoveOptions
new_member_remove = record { id = 0 }

unfoldable pub remove_with_id : ℕ → MemberRemoveOptions → MemberRemoveOptions
remove_with_id id self = record self { id = id }

-- A response that holds the members of the cluster.
pub record MembersResponse : Type 0 where
  pub header : Option ResponseHeader
  pub members : List Member

unfoldable pub members_take_header : MembersResponse → MembersResponse × Option ResponseHeader
members_take_header self = (record self { header = none }, self.header)

abbrev pub MemberRemoveResponse : Type 0
MemberRemoveResponse = MembersResponse

pub record MemberUpdateOptions : Type 0 where
  pub id : ℕ
  pub peer_urls : List String

abbrev pub new_member_update : MemberUpdateOptions
new_member_update = record { id = 0; peer_urls = [] }

unfoldable pub with_option : ℕ → List String → MemberUpdateOptions → MemberUpdateOptions
with_option id url self = record self { id = id; peer_urls = url }

abbrev pub MemberUpdateResponse : Type 0
MemberUpdateResponse = MembersResponse

abbrev pub MemberListResponse : Type 0
MemberListResponse = MembersResponse

pub record MemberPromoteOptions : Type 0 where
  pub id : ℕ

abbrev pub new_member_promote : MemberPromoteOptions
new_member_promote = record { id = 0 }

unfoldable pub promote_with_id : ℕ → MemberPromoteOptions → MemberPromoteOptions
promote_with_id id self = record self { id = id }

abbrev pub MemberPromoteResponse : Type 0
MemberPromoteResponse = MembersResponse

pub record ClusterService (F : Foreign) (S : Type 0) : Type 0 where
  pub member_add : Unary F S MemberAddOptions MemberAddResponse
  pub member_remove : Unary F S MemberRemoveOptions MemberRemoveResponse
  pub member_update : Unary F S MemberUpdateOptions MemberUpdateResponse
  pub member_list : Unary F S (Unit {0}) MemberListResponse
  pub member_promote : Unary F S MemberPromoteOptions MemberPromoteResponse

module _ {F : Foreign} {Token W : Type 0} (auth : AuthService F Token W)
    (stub : ClusterService F (Session Token W)) (refresh_expired_token : Bool) where
  unfoldable pub member_add :
      List String → Option MemberAddOptions → Exec F (Session Token W) MemberAddResponse
  member_add urls options =
      do_call auth refresh_expired_token (with_urls urls (unwrap_or new_member_add options))
        (unary stub.member_add)

  unfoldable pub member_remove : ℕ → Exec F (Session Token W) MemberRemoveResponse
  member_remove id =
      do_call auth refresh_expired_token (remove_with_id id new_member_remove)
        (unary stub.member_remove)

  unfoldable pub member_update : ℕ → List String → Exec F (Session Token W) MemberUpdateResponse
  member_update id url =
      do_call auth refresh_expired_token (with_option id url new_member_update)
        (unary stub.member_update)

  unfoldable pub member_list : Exec F (Session Token W) MemberListResponse
  member_list = do_call auth refresh_expired_token tt (unary stub.member_list)

  unfoldable pub member_promote : ℕ → Exec F (Session Token W) MemberPromoteResponse
  member_promote id =
      do_call auth refresh_expired_token (promote_with_id id new_member_promote)
        (unary stub.member_promote)
