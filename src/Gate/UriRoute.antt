-- ===== src/Gate/UriRoute.antt =====
-- gate/uriroute/uri_route.go: the router that reads the topic of a message as a URI. `net/url`, JSON,
-- the options of the router and RPC are parameters.
pub mod Waiting
mod Tests
use mqant.Prelude.{
  ℕ, ◌==◌, ◌&&◌, Bool, true, false, if◌then◌else◌, Option, none, some, List, [], ◌∷◌, ◌++◌, Bytes,
  same, Dict, has_key, Result, ok, err, panic,
}
use mqant.Gate.Session.{SessionImp, SessionAgent, clone, set_topic}
use mqant.Gate.Transport.{rpc_param_session_type}
use mqant.Rpc.Args.{map_type, bytes_type}

pub record Url : Type 0 where
  pub scheme : Bytes
  pub hostname : Bytes
  pub path : Bytes
  pub raw_query : Bytes

-- The arguments of a call: the session with a value that the option `DataParsing` made, or two with
-- their types.
pub data CallArgs (B : Type 0) : Type 0 where
  with_bean : SessionAgent → B → CallArgs B
  with_bytes : Bytes → Bytes → Bytes → CallArgs B

pub record RouteCall (S B : Type 0) : Type 0 where
  pub server : S
  pub fn : Bytes
  pub args : CallArgs B

-- A call that was made, and whether its result is waited for.
pub data Made (S B : Type 0) : Type 0 where
  waited : RouteCall S B → Made S B
  told : RouteCall S B → Made S B

-- What comes back beside `needreturn`.
pub data Route (R E : Type 0) : Type 0 where
  returned : R → Option E → Route R E
  nothing : Route R E
  call_failed : E → Route R E
  not_uri : Route R E
  query_error : Route R E
  not_selected : E → Route R E
  service_not_found : Bytes → Route R E
  json_incorrect : Route R E
  not_serializable : Route R E

pub record UriRoute (S R E B : Type 0) : Type 0 where
  pub parse : Bytes → Option Url
  -- `url.ParseQuery`
  pub parse_query : Bytes → Option (Dict (List Bytes))
  pub selector : Option (SessionAgent → Bytes → Url → Result E S)
  pub get_route_server : Bytes → Option S
  pub data_parsing : Option (Bytes → Url → Bytes → Option B)
  pub is_json : Bytes → Bool
  pub marshal : SessionImp → Option Bytes
  pub span : Bytes
  pub call : RouteCall S B → R × Option E
  pub call_nr : RouteCall S B → Option E

-- The result of `OnRoute`, the session after it, and the calls that it made.
pub record Routed (S R E B : Type 0) : Type 0 where
  pub need_return : Bool
  pub route : Route R E
  pub session : SessionAgent
  pub calls : List (Made S B)

-- "msg_id", "modulus", "cache", "random"
abbrev pub msg_id : Bytes
msg_id = 109 ∷ 115 ∷ 103 ∷ 95 ∷ 105 ∷ 100 ∷ []

abbrev pub modulus : Bytes
modulus = 109 ∷ 111 ∷ 100 ∷ 117 ∷ 108 ∷ 117 ∷ 115 ∷ []

abbrev pub cache : Bytes
cache = 99 ∷ 97 ∷ 99 ∷ 104 ∷ 101 ∷ []

abbrev pub random : Bytes
random = 114 ∷ 97 ∷ 110 ∷ 100 ∷ 111 ∷ 109 ∷ []

-- The module that the URI names; "@" stands before the id of a node.
abbrev pub module_type : Url → Bytes
module_type u =
    if same u.hostname modulus
    then u.scheme
    else if same u.hostname cache
    then u.scheme
    else if same u.hostname random
    then u.scheme
    else u.scheme ++ 64 ∷ u.hostname

abbrev pub last_is : ℕ → Bytes → Bool
last_is c [] = false
last_is c (x ∷ []) = x == c
last_is c (x ∷ y ∷ s) = last_is c (y ∷ s)

abbrev pub first_is : ℕ → Bytes → Bool
first_is c [] = false
first_is c (x ∷ s) = x == c

module _ {S R E B : Type 0} (u : UriRoute S R E B) where
  abbrev pub fails : Bool → Route R E → SessionAgent → Routed S R E B
  fails need r s = record { need_return = need; route = r; session = s; calls = [] }

  -- The server of the message.
  abbrev pub select_server : SessionAgent → Bytes → Url → Result (Route R E) S
  select_server s topic uu = elim u.selector [
    | some selector ↦ elim (selector s topic uu) [
      | ok server ↦ ok server
      | err e ↦ err (not_selected e)
      | panic ↦ panic
    ]
    | none ↦ elim (u.get_route_server (module_type uu)) [
      | none ↦ err (service_not_found (module_type uu))
      | some server ↦ ok server
    ]
  ]

  abbrev pub bean_of : Bytes → Url → Bytes → Option B
  bean_of topic uu msg = elim u.data_parsing [ none ↦ none | some f ↦ f topic uu msg ]

  -- A call with or without an answer.
  unfoldable pub make_call : Bool → SessionAgent → RouteCall S B → Routed S R E B
  make_call need s c =
      if need
      then (let (r, e) = u.call c in
          record { need_return = need; route = returned r e; session = s; calls = waited c ∷ [] })
      else elim (u.call_nr c) [
        | none ↦ record { need_return = need; route = nothing; session = s; calls = told c ∷ [] }
        | some e ↦ record {
          need_return = need;
          route = call_failed e;
          session = s;
          calls = told c ∷ [];
        }
      ]

  -- The type of a message, if it is not JSON that cannot be read.
  abbrev pub param_type : Bytes → Option Bytes
  param_type msg =
      if first_is 123 msg && last_is 125 msg
      then (if u.is_json msg then some map_type else none)
      else some bytes_type

  -- The default arguments: a clone of the session with the topic, and the message.
  unfoldable pub route_bytes : Bool → SessionAgent → Bytes → Url → Bytes → S → Routed S R E B
  unfolding make_call
  route_bytes need s topic uu msg server = elim (param_type msg) [
    | none ↦ fails need json_incorrect s
    | some t ↦ elim (u.marshal (set_topic topic (clone u.span s)).session) [
      | none ↦ fails need not_serializable s
      | some b ↦
          make_call need s (record { server = server; fn = uu.path; args = with_bytes t b msg })
    ]
  ]

  -- `OnRoute` after the query is read; `none` is a panic of the selector.
  unfoldable pub route_to : Bool → SessionAgent → Bytes → Url → Bytes → Option (Routed S R E B)
  unfolding route_bytes make_call
  route_to need s topic uu msg = elim (select_server s topic uu) [
    | panic ↦ none
    | err r ↦ some (fails need r s)
    | ok server ↦ elim (bean_of topic uu msg) [
      | some bean ↦
          some
            (make_call need s (record { server = server; fn = uu.path; args = with_bean s bean }))
      | none ↦ some (route_bytes need s topic uu msg server)
    ]
  ]

  -- `OnRoute`
  unfoldable pub on_route : SessionAgent → Bytes → Bytes → Option (Routed S R E B)
  unfolding route_to
  on_route session topic msg = elim (u.parse topic) [
    | none ↦ some (fails true not_uri session)
    | some uu ↦ elim (u.parse_query uu.raw_query) [
      | none ↦ some (fails true query_error session)
      | some m ↦ route_to (has_key msg_id m) (set_topic topic session) topic uu msg
    ]
  ]
