-- ===== src/Election.antt =====
-- src/rpc/election.rs: the options, the responses and the client of the election service.
use etcd_client.Prelude.{ℤ, pos, String, Bool, Option, none, some, []}
use etcd_client.Bytes.{Bytes}
use etcd_client.Rpc.{ResponseHeader, HeaderResponse, KeyValue, unwrap_or}
use etcd_client.Error.{Foreign, Result}
use etcd_client.Exec.{Exec}
use etcd_client.Caller.{Session, AuthService, do_call}
use etcd_client.Kv.Client.{Answer, Unary, unary, into_inner}

pub record CampaignOptions : Type 0 where
  pub name : Bytes
  pub lease : ℤ
  pub value : Bytes

abbrev pub new_campaign : CampaignOptions
new_campaign = record { name = []; lease = pos 0; value = [] }

unfoldable pub campaign_with_name : Bytes → CampaignOptions → CampaignOptions
campaign_with_name name self = record self { name = name }

unfoldable pub campaign_with_lease : ℤ → CampaignOptions → CampaignOptions
campaign_with_lease lease self = record self { lease = lease }

unfoldable pub campaign_with_value : Bytes → CampaignOptions → CampaignOptions
campaign_with_value value self = record self { value = value }

-- `PbLeaderKey`, which `LeaderKey` wraps
pub record LeaderKey : Type 0 where
  pub name : Bytes
  pub key : Bytes
  pub rev : ℤ
  pub lease : ℤ

abbrev pub new_leader_key : LeaderKey
new_leader_key = record { name = []; key = []; rev = pos 0; lease = pos 0 }

unfoldable pub key_with_name : Bytes → LeaderKey → LeaderKey
key_with_name name self = record self { name = name }

unfoldable pub key_with_key : Bytes → LeaderKey → LeaderKey
key_with_key key self = record self { key = key }

unfoldable pub key_with_rev : ℤ → LeaderKey → LeaderKey
key_with_rev rev self = record self { rev = rev }

unfoldable pub key_with_lease : ℤ → LeaderKey → LeaderKey
key_with_lease lease self = record self { lease = lease }

-- `std::str::from_utf8` with the conversion of its error is the first argument.
module _ {F : Foreign} (from_utf8 : Bytes → Result F String) where
  unfoldable pub leader_name_str : LeaderKey → Result F String
  leader_name_str self = from_utf8 self.name

  unfoldable pub leader_key_str : LeaderKey → Result F String
  leader_key_str self = from_utf8 self.key

pub record ProclaimOptions : Type 0 where
  pub leader : Option LeaderKey
  pub value : Bytes

abbrev pub new_proclaim : ProclaimOptions
new_proclaim = record { leader = none; value = [] }

unfoldable pub proclaim_with_value : Bytes → ProclaimOptions → ProclaimOptions
proclaim_with_value value self = record self { value = value }

unfoldable pub proclaim_with_leader : LeaderKey → ProclaimOptions → ProclaimOptions
proclaim_with_leader leader self = record self { leader = some leader }

pub record LeaderOptions : Type 0 where
  pub name : Bytes

abbrev pub new_leader : LeaderOptions
new_leader = record { name = [] }

unfoldable pub leader_with_name : Bytes → LeaderOptions → LeaderOptions
leader_with_name name self = record self { name = name }

pub record ResignOptions : Type 0 where
  pub leader : Option LeaderKey

abbrev pub new_resign : ResignOptions
new_resign = record { leader = none }

unfoldable pub resign_with_leader : LeaderKey → ResignOptions → ResignOptions
resign_with_leader leader self = record self { leader = some leader }

pub record CampaignResponse : Type 0 where
  pub header : Option ResponseHeader
  pub leader : Option LeaderKey

unfoldable pub campaign_take_header : CampaignResponse → CampaignResponse × Option ResponseHeader
campaign_take_header self = (record self { header = none }, self.header)

unfoldable pub take_leader : CampaignResponse → CampaignResponse × Option LeaderKey
take_leader self = (record self { leader = none }, self.leader)

abbrev pub ProclaimResponse : Type 0
ProclaimResponse = HeaderResponse

pub record LeaderResponse : Type 0 where
  pub header : Option ResponseHeader
  pub kv : Option KeyValue

unfoldable pub leader_take_header : LeaderResponse → LeaderResponse × Option ResponseHeader
leader_take_header self = (record self { header = none }, self.header)

unfoldable pub take_kv : LeaderResponse → LeaderResponse × Option KeyValue
take_kv self = (record self { kv = none }, self.kv)

abbrev pub ResignResponse : Type 0
ResignResponse = HeaderResponse

-- `Stream` is the stream of an observation.
pub record ElectionService (F : Foreign) (S : Type 0) : Type 1 where
  pub Stream : Type 0
  pub campaign : Unary F S CampaignOptions CampaignResponse
  pub proclaim : Unary F S ProclaimOptions ProclaimResponse
  pub leader : Unary F S LeaderOptions LeaderResponse
  pub observe : Unary F S LeaderOptions Stream
  pub resign : Unary F S ResignOptions ResignResponse
  pub message : Stream → S → Answer F (Option LeaderResponse) × S

module _ {F : Foreign} {Token W : Type 0} (auth : AuthService F Token W)
    (stub : ElectionService F (Session Token W)) (refresh_expired_token : Bool) where
  unfoldable pub campaign : Bytes → Bytes → ℤ → Exec F (Session Token W) CampaignResponse
  campaign name value lease =
      do_call auth refresh_expired_token
        (campaign_with_lease lease
          (campaign_with_value value (campaign_with_name name new_campaign)))
        (unary stub.campaign)

  unfoldable pub proclaim :
      Bytes → Option ProclaimOptions → Exec F (Session Token W) ProclaimResponse
  proclaim value options =
      do_call auth refresh_expired_token
        (proclaim_with_value value (unwrap_or new_proclaim options)) (unary stub.proclaim)

  unfoldable pub leader : Bytes → Exec F (Session Token W) LeaderResponse
  leader name =
      do_call auth refresh_expired_token (leader_with_name name new_leader) (unary stub.leader)

  unfoldable pub observe : Bytes → Exec F (Session Token W) stub.Stream
  observe name =
      do_call auth refresh_expired_token (leader_with_name name new_leader) (unary stub.observe)

  unfoldable pub resign : Option ResignOptions → Exec F (Session Token W) ResignResponse
  resign option =
      do_call auth refresh_expired_token (unwrap_or new_resign option) (unary stub.resign)

  -- `ObserveStream::message`
  unfoldable pub observe_message : stub.Stream → Exec F (Session Token W) (Option LeaderResponse)
  observe_message stream s = let (answer, s') = stub.message stream s in (into_inner answer, s')
