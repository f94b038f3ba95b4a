-- ===== src/Rpc/Client/Calls.antt =====
-- rpc/base/rpc_client.go with rpc_server.go: a call through the wire and the call of the function.
use mqant.Prelude.{
  Result-cases, Option, ℕ, suc, length, true, false, none, some, List, [], ◌∷◌, Bytes, same, Result,
  ok, err, panic, ◌≡◌, refl, ap, ◌∙◌, inl, inr, arith,
}
use mqant.Rpc.Args.{
  nil, string, bool, int32, int64, float32, float64, bytes, map, map_string, trace, other, Value,
  Codec, ArgsError, args_type_and_to_bytes, bytes_to_args,
}
use mqant.Rpc.Args.RoundTrip.{through, Arrives, through-Arrives}
use mqant.Rpc.Server.{
  RpcInfo, Event, text, wrong_return, exception, ResultInfo, new_result_info, no_error, error_text,
  Outcome, panics, values, returns, FunctionInfo, RpcServer, decode_args, run_func,
}
use mqant.Rpc.Server.Quiet.{told, value_answer, sent, body_run, run_quietly, run_func-run_quietly}
use mqant.Rpc.Server.Answering.{replies}
use mqant.Rpc.Server.Running.{leave}
use mqant.Rpc.Server.Replying.{
  Passes, outcome, body_run-outcome, run_quietly-leave, leave-none, leave-some,
  value_answer-replies, told-replies, entered, entered-Passes, entered-events, Passes-quiet,
}
use mqant.Rpc.Client.{
  Sent, delivered, done, ClientError, remote, encode_params, read_result, call_args, call,
}

-- A server at the other end that has sent nothing yet: the first answer is delivered.
abbrev pub first_answer : List ResultInfo → Sent
first_answer [] = done
first_answer (r ∷ rs) = delivered r

module _ {J P : Type 0} where
  -- A value that arrives was written, and its bytes are read.
  written :
      (c : Codec J P) (v w : Value J P)
      → Arrives c v w
      → (t b : Bytes) × (args_type_and_to_bytes c v ≡ ok (t, b)) × (bytes_to_args c t b ≡ ok w)
  unfolding through
  written c v w x = elim (Result-cases (args_type_and_to_bytes c v)) [
    | inl ((t, b), e) ↦ (t, b, e, ground (arith, e, through-Arrives c v w x))
    | inr (inl (e, q)) ↦ absurd (ground (arith, q, through-Arrives c v w x))
    | inr (inr q) ↦ absurd (ground (arith, q, through-Arrives c v w x))
  ]

module _ {J P : Type 0} (c : Codec J P) where
  -- A failure of a codec is told by a text.
  abbrev pub worded : {A : Type 0} → (ArgsError → Bytes) → Result ArgsError A → Result Bytes A
  worded say (ok a) = ok a
  worded say (err e) = err (say e)
  worded say panic = panic

  abbrev pub through_server :
      (Event → Option Bytes)
      → (ArgsError → Bytes)
      → RpcServer (Value J P) (Value J P)
      → RpcInfo
      → Sent
  through_server heard say s info = first_answer (
      replies
        (run_func heard (λ v. worded say (args_type_and_to_bytes c v)) info
          (record s { events = [] })).1.events)

  -- The codec of the server, when the id that it generates is `span`.
  abbrev pub with_span : Bytes → Codec J P
  with_span span = record c { new_span = span }

  -- The parameters arrive one by one, the parameter k with the new id `ids k`.
  pub data AllArrive (ids : ℕ → Bytes) : ℕ → List (Value J P) → List (Value J P) → Type 0 where
    none_left : {k : ℕ} → AllArrive ids k [] []
    one_more :
        {k : ℕ} {v w : Value J P} {vs ws : List (Value J P)}
        → Arrives (with_span (ids k)) v w
        → AllArrive ids (suc k) vs ws
        → AllArrive ids k (v ∷ vs) (w ∷ ws)

  -- What the caller gets for what the function does.
  pub data Gets : Outcome (Value J P) → Result ClientError (Value J P) → Type 0 where
    value : (v w : Value J P) → Arrives c v w → Gets (returns v no_error) (ok w)
    failure :
        (v w : Value J P) (t : Bytes)
        → Arrives c v w
        → same t [] ≡ false
        → Gets (returns v (error_text t)) (err (remote (text t)))
    exception_of : (t : Bytes) → Gets (panics t) (err (remote (exception t)))
    miscounted : (n : ℕ) → Gets (values n) (err (remote wrong_return))

  -- What is written does not depend on new ids.
  with_span-written :
      (span : Bytes) (v : Value J P)
      → args_type_and_to_bytes (with_span span) v ≡ args_type_and_to_bytes c v
  unfolding args_type_and_to_bytes
  with_span-written span nil = refl
  with_span-written span (string x) = refl
  with_span-written span (bool x) = refl
  with_span-written span (int32 x) = refl
  with_span-written span (int64 x) = refl
  with_span-written span (float32 x) = refl
  with_span-written span (float64 x) = refl
  with_span-written span (bytes x) = refl
  with_span-written span (map x) = refl
  with_span-written span (map_string x) = refl
  with_span-written span (trace x) = refl
  with_span-written span (other x) = refl

  -- The client's bytes are the server's inputs.
  params-decoded :
      (ids : ℕ → Bytes) (say : ArgsError → Bytes) (f : FunctionInfo (Value J P) (Value J P))
      → ((k : ℕ) (t b : Bytes)
          → f.decode k t b ≡ worded say (bytes_to_args (with_span (ids k)) t b))
      → (j k : ℕ) (vs ws : List (Value J P)) → AllArrive ids k vs ws
      → (types args : List Bytes) × (encode_params c j vs ≡ ok (types, args))
        × (decode_args f k types args ≡ ok ws)
        × (length args ≡ length vs)
        × (length ws ≡ length vs)
  unfolding encode_params decode_args
  params-decoded ids say f d j k vs ws none_left = ([], [], refl, refl, refl, refl)
  params-decoded ids say f d j k vs ws (one_more {v = v} {w = w} {vs = vs'} {ws = ws'} x xs) =
      let (types, args, e, q, l, m) = params-decoded ids say f d (suc j) (suc k) vs' ws' xs in
      let (t, b, u, r) = written (with_span (ids k)) v w x in
      (
        t ∷ types,
        b ∷ args,
        ground (arith, e, u, with_span-written (ids k) v),
        ground (arith, q, r, d k t b),
        ap suc l,
        ap suc m,
      )

  -- The result that the server sends for what the function does is what the caller gets.
  outcome-Gets :
      (say : ArgsError → Bytes) (info : RpcInfo) (s : RpcServer (Value J P) (Value J P))
      (o : Outcome (Value J P)) (r : Result ClientError (Value J P))
      → info.reply ≡ true
      → s.events ≡ []
      → Gets o r
      → read_result c (
          first_answer (
            replies
              (leave info
                (outcome (λ v. worded say (args_type_and_to_bytes c v)) info s o)).events))
        ≡ r
  unfolding outcome read_result new_result_info sent value_answer
  outcome-Gets say info s o r w n (value v v' x) =
      let (t, b, e, q) = written c v v' x in
      let p : outcome (λ v. worded say (args_type_and_to_bytes c v)) info s o
          ≡ (none, value_answer info no_error t b s) =
        ground (arith, e) in
      ground (
        arith,
        q,
        n,
        p,
        leave-none info (value_answer info no_error t b s),
        value_answer-replies info no_error t b s w,
      )
  outcome-Gets say info s o r w n (failure v v' m x z) =
      let (t, b, e, q) = written c v v' x in
      let p : outcome (λ v. worded say (args_type_and_to_bytes c v)) info s o
          ≡ (none, value_answer info (error_text m) t b s) =
        ground (arith, e) in
      ground (
        arith,
        q,
        n,
        p,
        z,
        leave-none info (value_answer info (error_text m) t b s),
        value_answer-replies info (error_text m) t b s w,
      )
  outcome-Gets say info s o r w n (exception_of m) = ground (arith, n, leave-some info m s w)
  outcome-Gets say info s o r w n (miscounted m) =
      ground
        (arith, n, leave-none info (told info wrong_return s), told-replies info wrong_return s w)

  -- A call through the client, the wire and the server gets what the function returns for the
  -- arguments as they arrive: the value, the error text, the text of a panic, or an error for a
  -- wrong number of values. The server has the function, which takes as many parameters and reads
  -- them as RPC does, with new ids for the traces, its listener lets the request pass, and no call of
  -- a hook panics.
  pub call-Gets :
      (heard : Event → Option Bytes) (ids : ℕ → Bytes) (say : ArgsError → Bytes)
      (f : FunctionInfo (Value J P) (Value J P)) (s : RpcServer (Value J P) (Value J P))
      (cid fn : Bytes) (params arrived : List (Value J P)) (r : Result ClientError (Value J P))
      → ((e : Event) → heard e ≡ none)
      → s.functions fn ≡ some f
      → ((k : ℕ) (t b : Bytes)
          → f.decode k t b ≡ worded say (bytes_to_args (with_span (ids k)) t b))
      → f.num_in ≡ length params
      → ((info : RpcInfo) → Passes s info)
      → AllArrive ids 0 params arrived
      → Gets (f.function arrived) r
      → call c (through_server heard say s) cid fn params ≡ r
  unfolding call call_args
  call-Gets heard ids say f s cid fn params arrived r w e d l x a g =
      let (types, args, u, v, m, n) = params-decoded ids say f d 0 0 params arrived a in
      let info : RpcInfo = record {
        cid = cid;
        fn = fn;
        reply = true;
        args = args;
        args_type = types;
      } in
      let quiet : RpcServer (Value J P) (Value J P) = record s { events = [] } in
      let encode : Value J P → Result Bytes (Bytes × Bytes) =
        λ v. worded say (args_type_and_to_bytes c v) in
      let p : run_quietly encode info quiet ≡ leave info (body_run encode f info (entered quiet)) =
        run_quietly-leave encode f info quiet e (ground (arith, m, l)) in
      let q : body_run encode f info (entered quiet)
          ≡ outcome encode info (entered quiet) (f.function arrived) =
        body_run-outcome encode f info (entered quiet) arrived (f.function arrived)
          (entered-Passes quiet info (Passes-quiet s info (x info))) v (ground (arith, n, l))
          refl in
      ground (arith, u)
      ∙ ap (λ z. read_result c (first_answer (replies z.1.events)))
          (run_func-run_quietly heard w encode info quiet)
      ∙ ap (λ z. read_result c (first_answer (replies z.events))) (p ∙ ap (leave info) q)
      ∙ outcome-Gets say info (entered quiet) (f.function arrived) r refl (entered-events quiet) g
