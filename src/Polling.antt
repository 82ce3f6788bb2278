-- ===== src/Polling.antt =====
-- `poll_next` of the response streams of src/rpc/watch.rs, src/rpc/lease.rs and src/rpc/election.rs.
-- The generated stream below is a parameter: a poll of it is pending, or gives its next item.
use etcd_client.Prelude.{◌≡◌, refl, subst, Option, none, some}
use etcd_client.Error.{Foreign, Result, ok, err, grpc_status}
use etcd_client.Kv.Client.{Answer, replied, refused, into_inner}
use etcd_client.Watch.{WatchResponse}
use etcd_client.Lease.{LeaseKeepAliveResponse}
use etcd_client.Election.{LeaderResponse}

pub data Poll (A : Type 0) : Type 0 where
  pending : Poll A
  ready : A → Poll A

abbrev pub map_poll : {A B : Type 0} → (A → B) → Poll A → Poll B
map_poll f pending = pending
map_poll f (ready a) = ready (f a)

-- The poll of a stream, with its state.
abbrev pub Polled : Type 0 → Type 0 → Type 0
Polled S A = S → Poll (Option A) × S

-- The closure that all three give to `map`.
abbrev pub convert_item : {F : Foreign} {A : Type 0} → Option (Answer F A) → Option (Result F A)
convert_item (some (replied resp)) = some (ok resp)
convert_item (some (refused e)) = some (err (grpc_status e))
convert_item none = none

abbrev poll_converted : {F : Foreign} {S A : Type 0} → Polled S (Answer F A) → Polled S (Result F A)
poll_converted inner s = let (p, s') = inner s in (map_poll convert_item p, s')

module _ {F : Foreign} {S : Type 0} where
  -- `WatchResponseStream::poll_next`
  unfoldable pub poll_response :
      Polled S (Answer F WatchResponse) → Polled S (Result F WatchResponse)
  poll_response = poll_converted

  -- `WatchStream::poll_next`
  unfoldable pub poll_watch : Polled S (Answer F WatchResponse) → Polled S (Result F WatchResponse)
  unfolding poll_response
  poll_watch inner s = poll_response inner s

  -- `LeaseKeepAliveStream::poll_next`
  unfoldable pub poll_keep_alive :
      Polled S (Answer F LeaseKeepAliveResponse) → Polled S (Result F LeaseKeepAliveResponse)
  poll_keep_alive = poll_converted

  -- `ObserveStream::poll_next`
  unfoldable pub poll_leader :
      Polled S (Answer F LeaderResponse) → Polled S (Result F LeaderResponse)
  poll_leader = poll_converted

-- A stream that is polled until it is ready gives the item.
pub data Awaits {S A : Type 0} (inner : Polled S A) : S → Option A → S → Type 0 where
  now : {s s' : S} {item : Option A} → inner s ≡ (ready item, s') → Awaits inner s item s'
  later :
      {s s1 s' : S} {item : Option A}
      → inner s ≡ (pending, s1)
      → Awaits inner s1 item s'
      → Awaits inner s item s'

-- What the awaiting form `message` of a stream returns for an item: an error comes first.
abbrev pub message_of : {F : Foreign} {A : Type 0} → Option (Answer F A) → Answer F (Option A)
message_of none = replied none
message_of (some (replied a)) = replied (some a)
message_of (some (refused e)) = refused e

-- The item that belongs to what the client's awaiting form returns.
abbrev pub item_of : {F : Foreign} {A : Type 0} → Result F (Option A) → Option (Result F A)
item_of (ok none) = none
item_of (ok (some a)) = some (ok a)
item_of (err e) = some (err e)

convert_item-eq-item_of :
    {F : Foreign} {A : Type 0} (item : Option (Answer F A))
    → convert_item item ≡ item_of (into_inner (message_of item))
convert_item-eq-item_of none = refl
convert_item-eq-item_of (some (replied a)) = refl
convert_item-eq-item_of (some (refused e)) = refl

Awaits-converted :
    {F : Foreign} {S A : Type 0} (inner : Polled S (Answer F A)) (s s' : S)
    (item : Option (Answer F A))
    → Awaits inner s item s'
    → Awaits (poll_converted inner) s (convert_item item) s'
Awaits-converted inner s s' item (now e) = now (rw e refl)
Awaits-converted inner s s' item (later {s1 = s1} e rest) =
    later (rw e refl) (Awaits-converted inner s1 s' item rest)

-- The two forms of a watch stream agree: where the stream below becomes ready, the polled item is
-- what `message` returns for it, an error of the stream included, and its end is no item.
pub Awaits-poll_watch :
    {F : Foreign} {S : Type 0} (inner : Polled S (Answer F WatchResponse)) (s s' : S)
    (item : Option (Answer F WatchResponse))
    → Awaits inner s item s'
    → Awaits (poll_watch inner) s (item_of (into_inner (message_of item))) s'
unfolding poll_watch poll_response
Awaits-poll_watch inner s s' item run =
    subst (λ i. Awaits (poll_converted inner) s i s') (convert_item-eq-item_of item)
      (Awaits-converted inner s s' item run)
