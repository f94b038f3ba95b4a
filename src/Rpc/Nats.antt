-- ===== src/Rpc/Nats.antt =====
-- rpc/base/nats_client.go: the table of the calls that wait for an answer, by their correlation ids.
-- The channel of a call is a number; the NATS connection and protobuf are parameters, and the lock makes
-- each function here one step. The renewal of a subscription is left out.
pub mod Once
mod Tests
use mqant.Prelude.{
  ℕ, suc, Bool, true, false, if◌then◌else◌, Option, none, some, List, [], ◌∷◌, ◌++◌, Bytes, Dict,
  find, put, erase, Result, ok, err,
}
use mqant.Rpc.Server.{RpcInfo, ResultInfo}

-- What happens to a channel.
pub data ChannelEvent : Type 0 where
  sent : ℕ → ResultInfo → ChannelEvent
  closed : ℕ → ChannelEvent

-- `NatsClient`: `callinfos` has the channel of each call, `next_channel` is the one that the next
-- call makes; `events` is what became of the channels.
pub record NatsClient : Type 0 where
  pub callinfos : Dict ℕ
  pub is_close : Bool
  pub next_channel : ℕ
  pub published : List RpcInfo
  pub events : List ChannelEvent

abbrev pub new_nats_client : NatsClient
new_nats_client = record {
  callinfos = [];
  is_close = false;
  next_channel = 0;
  published = [];
  events = [];
}

-- `Delete`
unfoldable pub delete : Bytes → NatsClient → NatsClient
delete cid c = record c { callinfos = erase cid c.callinfos }

-- `stop`
abbrev pub stop : NatsClient → NatsClient
stop c = record c { is_close = true }

abbrev pub close_all : Dict ℕ → List ChannelEvent
close_all [] = []
close_all ((k, ch) ∷ m) = closed ch ∷ close_all m

-- `finish`
unfoldable pub finish : NatsClient → NatsClient
finish c = record (stop c) { callinfos = []; events = c.events ++ close_all c.callinfos }

-- `Call` with a channel that the caller has made; `publish` says why a request was not published, and
-- `marshal` why it could not be written.
unfoldable pub call :
    (RpcInfo → Option Bytes)
    → (RpcInfo → Option Bytes)
    → RpcInfo
    → NatsClient
    → Result Bytes ℕ × NatsClient
call marshal publish info c =
    let ch = c.next_channel in
    let c' = record c { next_channel = suc ch } in
    if c.is_close then (err [], c') else elim (marshal info) [
      | some e ↦ (err e, c')
      | none ↦ elim (publish info) [
        | some e ↦ (err e, record c' { callinfos = erase info.cid (put info.cid ch c.callinfos) })
        | none ↦ (
          ok ch,
          record c' {
            callinfos = put info.cid ch c.callinfos;
            published = c.published ++ info ∷ [];
          },
        )
      ]
    ]

-- `CallNR`
pub call_nr :
    (RpcInfo → Option Bytes)
    → (RpcInfo → Option Bytes)
    → RpcInfo
    → NatsClient
    → Option Bytes × NatsClient
call_nr marshal publish info c = if c.is_close then (some [], c) else elim (marshal info) [
  | some e ↦ (some e, c)
  | none ↦ elim (publish info) [
    | some e ↦ (some e, c)
    | none ↦ (none, record c { published = c.published ++ info ∷ [] })
  ]
]

-- `on_request_handle`, one answer that was read: `gives_up` says that the client was told to end while
-- the answer was handed over, and that `select` took this side.
unfoldable pub on_answer : Bool → ResultInfo → NatsClient → NatsClient
on_answer gives_up r c = elim (find r.cid c.callinfos) [
  | none ↦ record c { callinfos = erase r.cid c.callinfos }
  | some ch ↦ record c {
    callinfos = erase r.cid c.callinfos;
    events = c.events ++ (if gives_up then closed ch ∷ [] else sent ch r ∷ closed ch ∷ []);
  }
]
