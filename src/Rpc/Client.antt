-- ===== src/Rpc/Client.antt =====
-- rpc/base/rpc_client.go: a call of a function of another module. `send` is the NATS client, which is
-- a parameter: what it makes of a request. The trace and the time of a call are left out.
pub mod Calls
use mqant.Prelude.{
  ℕ, zero, suc, Bool, true, false, Option, none, some, List, [], ◌∷◌, Bytes, Result, ok, err, panic,
}
use mqant.Rpc.Args.{Value, Codec, ArgsError, args_type_and_to_bytes, bytes_to_args}
use mqant.Rpc.Server.{RpcInfo, ResultInfo, CallError}

-- What comes of a request: it is refused, or a result comes back in time, or the channel is closed, or
-- the context ends.
pub data Sent : Type 0 where
  refused : Bytes → Sent
  delivered : ResultInfo → Sent
  closed : Sent
  done : Sent

pub data ClientError : Type 0 where
  args_error : ℕ → ArgsError → ClientError
  nats : Bytes → ClientError
  remote : CallError → ClientError
  unreadable : ArgsError → ClientError
  client_closed : ClientError
  deadline_exceeded : ClientError

module _ {J P : Type 0} (c : Codec J P) where
  -- The loop over the parameters: their types and bytes; the error names the index.
  unfoldable pub encode_params : ℕ → List (Value J P) → Result ClientError (List Bytes × List Bytes)
  encode_params k [] = ok ([], [])
  encode_params k (v ∷ params) =
      let rest = encode_params (suc k) params in
      elim (args_type_and_to_bytes c v) [
        | err e ↦ err (args_error k e)
        | panic ↦ panic
        | ok (t, b) ↦ elim rest [
          | ok (types, args) ↦ ok (t ∷ types, b ∷ args)
          | err e ↦ err e
          | panic ↦ panic
        ]
      ]

  -- `CallArgs`, after the request is sent.
  unfoldable pub read_result : Sent → Result ClientError (Value J P)
  read_result (refused t) = err (nats t)
  read_result closed = err client_closed
  read_result done = err deadline_exceeded
  read_result (delivered r) = elim r.error [
    | some e ↦ err (remote e)
    | none ↦ elim (bytes_to_args c r.result_type r.result) [
      | ok v ↦ ok v
      | err e ↦ err (unreadable e)
      | panic ↦ panic
    ]
  ]

  -- `CallArgs` with a new correlation id.
  unfoldable pub call_args :
      (RpcInfo → Sent) → Bytes → Bytes → List Bytes → List Bytes → Result ClientError (Value J P)
  unfolding read_result
  call_args send cid fn types args =
      read_result
        (send (record { cid = cid; fn = fn; reply = true; args = args; args_type = types }))

  -- `Call`
  unfoldable pub call :
      (RpcInfo → Sent) → Bytes → Bytes → List (Value J P) → Result ClientError (Value J P)
  unfolding encode_params call_args
  call send cid fn params = elim (encode_params 0 params) [
    | ok (types, args) ↦ call_args send cid fn types args
    | err e ↦ err e
    | panic ↦ panic
  ]

  -- `CallNRArgs` and `CallNR`: nothing comes back but the error of the NATS client.
  pub call_nr :
      (RpcInfo → Option Bytes) → Bytes → Bytes → List (Value J P) → Result ClientError (Unit {0})
  unfolding encode_params
  call_nr send cid fn params = elim (encode_params 0 params) [
    | ok (types, args) ↦
        elim (send (record { cid = cid; fn = fn; reply = false; args = args; args_type = types })) [
          | some t ↦ err (nats t)
          | none ↦ ok tt
        ]
    | err e ↦ err e
    | panic ↦ panic
  ]
