-- ===== src/Rpc/Tests.antt =====
-- rpc: a function that gives back its argument, called through the wire.
use mqant.Prelude.{
  ℕ, Option, true, if◌then◌else◌, none, some, List, [], ◌∷◌, Bytes, insert, empty, Result, ok, pos,
  suc_ℤ, ◌≡◌, refl,
}
use mqant.Rpc.Args.{
  Value, Codec, ArgsError, string, nil, unknown, args_type_and_to_bytes, bytes_to_args,
}
use mqant.Rpc.Args.RoundTrip.{through, Arrives, plain, through-Arrives}
use mqant.Rpc.Server.{RpcInfo, FunctionInfo, RpcServer, Outcome, returns, no_error, run_func, Event}
use mqant.Rpc.Server.Adding.{Adds}
use mqant.Rpc.Server.Always.{run_func-Adds}
use mqant.Rpc.Server.Running.{Runs, is_callable, run_func-Runs}
use mqant.Rpc.Server.Replying.{no_listener}
use mqant.Rpc.Client.{call}
use mqant.Rpc.Client.Calls.{
  through_server, with_span, worded, none_left, one_more, value, call-Gets,
}

-- Values that are no maps or pointers.
abbrev codec : Codec (Unit {0}) (Unit {0})
codec = record {
  map_to_bytes = λ m. none;
  bytes_to_map = λ b. none;
  map_string_to_bytes = λ m. none;
  bytes_to_map_string = λ b. none;
  trace_to_bytes = λ t. none;
  bytes_to_trace = λ b. none;
  new_span = [];
  serializers = [];
  reflect = λ p. unknown;
}

abbrev V : Type 0
V = Value (Unit {0}) (Unit {0})

abbrev say : ArgsError → Bytes
say e = 1 ∷ []

abbrev first : List V → Outcome V
first [] = returns nil no_error
first (v ∷ vs) = returns v no_error

-- The hooks return, and the ids of all traces are 9.
abbrev quiet : Event → Option Bytes
quiet e = none

abbrev ids : ℕ → Bytes
ids k = 9 ∷ []

abbrev echo : FunctionInfo V V
echo = record {
  num_in = 1;
  goroutine = true;
  decode = λ k t b. worded codec say (bytes_to_args (with_span codec (ids k)) t b);
  function = first;
}

abbrev server : RpcServer V V
server = record {
  functions = insert (7 ∷ []) echo empty;
  listener = none;
  has_rpc_handler = true;
  has_control = true;
  tokens = pos 0;
  executing = pos 0;
  events = [];
}

abbrev hello : V
hello = string (104 ∷ 105 ∷ [])

hello-Arrives : Arrives codec hello hello
hello-Arrives = plain hello (λ p e. absurd cc) tt

echoed : Arrives (with_span codec (9 ∷ [])) hello hello
echoed = plain hello (λ p e. absurd cc) tt

through-Arrives_example : through codec hello ≡ ok hello
through-Arrives_example = through-Arrives codec hello hello hello-Arrives

call-Gets_example :
    call codec (through_server codec quiet say server) (5 ∷ []) (7 ∷ []) (hello ∷ []) ≡ ok hello
call-Gets_example =
    call-Gets codec quiet ids say echo server (5 ∷ []) (7 ∷ []) (hello ∷ []) (hello ∷ []) (ok hello)
      (λ e. refl) refl (λ k t b. refl) refl (λ info. no_listener refl) (one_more echoed none_left)
      (value hello hello hello-Arrives)

-- A request with no argument.
abbrev short : RpcInfo
short = record { cid = 5 ∷ []; fn = 7 ∷ []; reply = true; args = []; args_type = [] }

abbrev encode : V → Result Bytes (Bytes × Bytes)
encode v = worded codec say (args_type_and_to_bytes codec v)

run_func-Runs_example :
    ((run_func quiet encode short server).0 ≡ none)
    × Runs short server
        (run_func quiet encode short server).1
        (if is_callable server short then pos 0 else if true then suc_ℤ (pos 0) else pos 0)
run_func-Runs_example = run_func-Runs quiet (λ e. refl) encode short server

-- A hook that panics whenever it hears of an answer.
abbrev loud : Event → Option Bytes
loud e = some (1 ∷ [])

run_func-Adds_example : Adds short 1 3 server (run_func loud encode short server).1
run_func-Adds_example = run_func-Adds short loud refl encode server
