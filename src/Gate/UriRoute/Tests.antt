-- ===== src/Gate/UriRoute/Tests.antt =====
-- gate/uriroute/uri_route.go: a topic with an id, and one without.
use mqant.Prelude.{Dict, List, true, false, Option, none, some, [], ◌∷◌, Bytes, ◌≡◌, refl}
use mqant.Gate.Session.{SessionAgent, new_session_imp, set_topic}
use mqant.Gate.UriRoute.{
  Url, UriRoute, Routed, with_bytes, RouteCall, waited, told, returned, nothing, on_route, route_to,
  route_bytes, make_call,
}
use mqant.Gate.UriRoute.Waiting.{wants_answer, CallsOnce, on_route-CallsOnce}
use mqant.Rpc.Args.{bytes_type}

-- A URI is its query: with a byte it has an id.
abbrev parse : Bytes → Option Url
parse [] = none
parse (c ∷ s) = some (record { scheme = c ∷ []; hostname = []; path = c ∷ []; raw_query = s })

abbrev parse_query : Bytes → Option (Dict (List Bytes))
parse_query [] = some []
parse_query (c ∷ s) = some ((109 ∷ 115 ∷ 103 ∷ 95 ∷ 105 ∷ 100 ∷ [], s ∷ []) ∷ [])

abbrev router : UriRoute Bytes Bytes Bytes Bytes
router = record {
  parse = parse;
  parse_query = parse_query;
  selector = none;
  get_route_server = λ t. some t;
  data_parsing = none;
  is_json = λ m. true;
  marshal = λ s. some s.topic;
  span = [];
  call = λ c. (c.fn, none);
  call_nr = λ c. none;
}

abbrev session : SessionAgent
session = record { judge_guest = none; user_data = none; session = new_session_imp; has_app = true }

-- "a@" is the module that the URI of the scheme "a" without a host names.
abbrev routed_call : Bytes → RouteCall Bytes Bytes
routed_call topic = record {
  server = 97 ∷ 64 ∷ [];
  fn = 97 ∷ [];
  args = with_bytes bytes_type topic (1 ∷ []);
}

abbrev asked : Routed Bytes Bytes Bytes Bytes
asked = record {
  need_return = true;
  route = returned (97 ∷ []) none;
  session = set_topic (97 ∷ 1 ∷ []) session;
  calls = waited (routed_call (97 ∷ 1 ∷ [])) ∷ [];
}

routed : on_route router session (97 ∷ 1 ∷ []) (1 ∷ []) ≡ some asked
unfolding on_route route_to route_bytes make_call set_topic
routed = refl

routed_without_id :
    on_route router session (97 ∷ []) (1 ∷ [])
    ≡ some (record {
      need_return = false;
      route = nothing;
      session = set_topic (97 ∷ []) session;
      calls = told (routed_call (97 ∷ [])) ∷ [];
    })
unfolding on_route route_to route_bytes make_call set_topic
routed_without_id = refl

on_route-CallsOnce_example :
    (asked.need_return ≡ wants_answer router (97 ∷ 1 ∷ []))
    × CallsOnce router (wants_answer router (97 ∷ 1 ∷ [])) asked.calls
on_route-CallsOnce_example = on_route-CallsOnce router session (97 ∷ 1 ∷ []) (1 ∷ []) asked routed
