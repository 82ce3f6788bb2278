-- ===== src/Watch.antt =====
-- src/rpc/watch.rs: the options and requests of a watcher, its responses, and the two ends of a watch
-- stream.
pub mod Requests
pub mod Stream
use etcd_client.Prelude.{
  ℕ, zero, suc, ℤ, pos, String, Bool, true, false, Option, none, some, List, [], map,
}
use etcd_client.Bytes.{Bytes}
use etcd_client.Rpc.{ResponseHeader, KeyValue, unwrap_or}
use etcd_client.KeyRange
use etcd_client.KeyRange.{KeyRange}
use etcd_client.Error.{Foreign, Result, ok, err, watch_error}
use etcd_client.Exec.{Exec, pure, ◌>>=◌}
use etcd_client.Caller.{Session, AuthService, do_call}
use etcd_client.Kv.Client.{Answer, Unary, unary, into_inner}

pub data WatchFilterType : Type 0 where
  no_put no_delete : WatchFilterType

-- `f as i32`
unfoldable pub filter_code : WatchFilterType → ℕ
filter_code no_put = 0
filter_code no_delete = 1

pub record WatchCreateRequest : Type 0 where
  pub key : Bytes
  pub range_end : Bytes
  pub start_revision : ℤ
  pub progress_notify : Bool
  pub filters : List ℕ
  pub prev_kv : Bool
  pub watch_id : ℤ
  pub fragment : Bool

pub record WatchOptions : Type 0 where
  pub req : WatchCreateRequest
  pub key_range : KeyRange

unfoldable pub new : WatchOptions
new = record {
  req = record {
    key = [];
    range_end = [];
    start_revision = pos 0;
    progress_notify = false;
    filters = [];
    prev_kv = false;
    watch_id = pos 0;
    fragment = false;
  };
  key_range = KeyRange.new;
}

unfoldable pub with_key : Bytes → WatchOptions → WatchOptions
with_key key self = record self { key_range = KeyRange.with_key key self.key_range }

unfoldable pub with_range : Bytes → WatchOptions → WatchOptions
with_range end self = record self { key_range = KeyRange.with_range end self.key_range }

unfoldable pub with_from_key : WatchOptions → WatchOptions
with_from_key self = record self { key_range = KeyRange.with_from_key self.key_range }

unfoldable pub with_prefix : WatchOptions → WatchOptions
with_prefix self = record self { key_range = KeyRange.with_prefix self.key_range }

unfoldable pub with_all_keys : WatchOptions → WatchOptions
with_all_keys self = record self { key_range = KeyRange.with_all_keys self.key_range }

unfoldable pub with_start_revision : ℤ → WatchOptions → WatchOptions
with_start_revision revision self = record self {
  req = record self.req { start_revision = revision };
}

unfoldable pub with_progress_notify : WatchOptions → WatchOptions
with_progress_notify self = record self { req = record self.req { progress_notify = true } }

unfoldable pub with_filters : List WatchFilterType → WatchOptions → WatchOptions
unfolding filter_code
with_filters filters self = record self {
  req = record self.req { filters = map filter_code filters };
}

unfoldable pub with_prev_key : WatchOptions → WatchOptions
with_prev_key self = record self { req = record self.req { prev_kv = true } }

unfoldable pub with_watch_id : ℤ → WatchOptions → WatchOptions
with_watch_id watch_id self = record self { req = record self.req { watch_id = watch_id } }

unfoldable pub with_fragment : WatchOptions → WatchOptions
with_fragment self = record self { req = record self.req { fragment = true } }

-- `From<WatchOptions> for WatchCreateRequest`
unfoldable pub into_create_request : WatchOptions → WatchCreateRequest
into_create_request options =
    let (key, range_end) = KeyRange.build options.key_range in
    record options.req { key = key; range_end = range_end }

-- `WatchRequest`, whose union is always set here
pub data WatchRequest : Type 0 where
  create_request : WatchCreateRequest → WatchRequest
  cancel_request : (watch_id : ℤ) → WatchRequest
  progress_request : WatchRequest

pub record Event : Type 0 where
  pub type_code : ℤ
  pub kv : Option KeyValue
  pub prev_kv : Option KeyValue

pub data EventType : Type 0 where
  put_event delete_event : EventType

-- An unknown code panics: `none`.
unfoldable pub event_type : Event → Option EventType
event_type self = elim self.type_code [
  | pos zero ↦ some put_event
  | pos (suc zero) ↦ some delete_event
  | _ ↦ none
]

pub record WatchResponse : Type 0 where
  pub header : Option ResponseHeader
  pub watch_id : ℤ
  pub created : Bool
  pub canceled : Bool
  pub compact_revision : ℤ
  pub cancel_reason : String
  pub fragment : Bool
  pub events : List Event

unfoldable pub take_header : WatchResponse → WatchResponse × Option ResponseHeader
take_header self = (record self { header = none }, self.header)

-- The stub, and the channel of requests behind its argument: `channel` gives the two ends of a new one
-- that holds a number of requests, `send` gives the text of its error.
pub record WatchService (F : Foreign) (S : Type 0) : Type 1 where
  pub Sender : Type 0
  pub Receiver : Type 0
  pub Stream : Type 0
  pub channel : ℕ → S → (Sender × Receiver) × S
  pub watch : Unary F S Receiver Stream
  pub send : Sender → WatchRequest → S → Option String × S
  pub message : Stream → S → Answer F (Option WatchResponse) × S

module _ {F : Foreign} {Token W : Type 0} (stub : WatchService F (Session Token W)) where
  -- `WatchRequestSender::send`
  unfoldable pub send : stub.Sender → WatchRequest → Exec F (Session Token W) (Unit {0})
  send sender req s =
      let (failure, s') = stub.send sender req s in
      elim failure [ none ↦ (ok tt, s') | some e ↦ (err (watch_error e), s') ]

  abbrev create_channel : ℕ → Exec F (Session Token W) (stub.Sender × stub.Receiver)
  create_channel size s = let (ends, s') = stub.channel size s in (ok ends, s')

  unfoldable pub watch_impl : WatchOptions → Exec F (Session Token W) (stub.Sender × stub.Stream)
  unfolding send
  watch_impl options = do
    (request_sender, request_receiver) ← create_channel 100
    _ ← send request_sender (create_request (into_create_request options))
    stream ← unary stub.watch request_receiver
    pure (request_sender, stream)

  -- `WatchClient::watch`
  unfoldable pub watch :
      AuthService F Token W
      → (refresh_expired_token : Bool) → Bytes
      → Option WatchOptions
      → Exec F (Session Token W) (stub.Sender × stub.Stream)
  unfolding watch_impl
  watch auth refresh_expired_token key options =
      do_call auth refresh_expired_token (with_key key (unwrap_or new options)) watch_impl

  -- `WatchRequestSender::watch`
  unfoldable pub send_watch :
      stub.Sender → Bytes → Option WatchOptions → Exec F (Session Token W) (Unit {0})
  send_watch sender key options =
      send sender (create_request (into_create_request (with_key key (unwrap_or new options))))

  unfoldable pub cancel : stub.Sender → ℤ → Exec F (Session Token W) (Unit {0})
  cancel sender watch_id = send sender (cancel_request watch_id)

  unfoldable pub request_progress : stub.Sender → Exec F (Session Token W) (Unit {0})
  request_progress sender = send sender progress_request

  -- `WatchResponseStream::message`
  unfoldable pub message : stub.Stream → Exec F (Session Token W) (Option WatchResponse)
  message stream s = let (answer, s') = stub.message stream s in (into_inner answer, s')
