-- ===== src/Rpc/Nats/Tests.antt =====
-- rpc/base/nats_client.go: a call and its answer.
use mqant.Prelude.{◌≤◌, true, false, Option, none, [], Bytes}
use mqant.Rpc.Server.{RpcInfo, ResultInfo}
use mqant.Rpc.Nats.{NatsClient, new_nats_client, call, on_answer}
use mqant.Rpc.Nats.Once.{starts, goes, calls, answers, closes, sends, Reach-once}

abbrev nowhere : RpcInfo → Option Bytes
nowhere info = none

abbrev info : RpcInfo
info = record { cid = []; fn = []; reply = true; args = []; args_type = [] }

abbrev answer : ResultInfo
answer = record { cid = []; error = none; result_type = []; result = [] }

abbrev answered : NatsClient
answered = on_answer false answer (call nowhere nowhere info new_nats_client).1

Reach-once_example : (closes 0 answered.events ≤ 1) × (sends 0 answered.events ≤ 1)
Reach-once_example =
    Reach-once answered (goes (goes starts (calls nowhere nowhere info)) (answers false answer)) 0
