-- ===== src/Watch/Stream.antt =====
-- `WatchStream` of src/rpc/watch.rs, the pair of a sender and a response stream.
use etcd_client.Prelude.{ℤ, Option}
use etcd_client.Bytes.{Bytes}
use etcd_client.Error.{Foreign}
use etcd_client.Exec.{Exec}
use etcd_client.Caller.{Session}
use etcd_client.Watch.{
  WatchOptions, WatchResponse, WatchService, send_watch, cancel, request_progress, message,
}

pub record WatchStream (Sender Stream : Type 0) : Type 0 where
  pub request_sender : Sender
  pub response_stream : Stream

abbrev pub new_watch_stream : {Sender Stream : Type 0} → Sender → Stream → WatchStream Sender Stream
new_watch_stream request_sender response_stream = record {
  request_sender = request_sender;
  response_stream = response_stream;
}

unfoldable pub split : {Sender Stream : Type 0} → WatchStream Sender Stream → Sender × Stream
split self = (self.request_sender, self.response_stream)

module _ {F : Foreign} {Token W : Type 0} (stub : WatchService F (Session Token W))
    (self : WatchStream stub.Sender stub.Stream) where
  unfoldable pub stream_watch : Bytes → Option WatchOptions → Exec F (Session Token W) (Unit {0})
  stream_watch key options = send_watch stub self.request_sender key options

  unfoldable pub stream_cancel : ℤ → Exec F (Session Token W) (Unit {0})
  stream_cancel watch_id = cancel stub self.request_sender watch_id

  unfoldable pub stream_request_progress : Exec F (Session Token W) (Unit {0})
  stream_request_progress = request_progress stub self.request_sender

  unfoldable pub stream_message : Exec F (Session Token W) (Option WatchResponse)
  stream_message = message stub self.response_stream
