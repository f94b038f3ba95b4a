-- ===== src/Gate/Handler/Settings.antt =====
-- gate/base/gate_handler.go: the settings of the sessions that the gate holds, before and after the
-- calls that change them.
use mqant.Prelude.{
  true, ◌&&◌, if◌then◌else◌, Option, none, some, [], ◌∷◌, ◌++◌, Bytes, same, same→eq, same_refl,
  Dict, find, put, erase, find-put, find-erase, IsDict, or_else, Result, ok, continue, pure, ◌≡◌,
  refl, ap, ◌∙◌, inl, inr, arith, Bool-cases, Option-cases,
}
use mqant.Gate.Session.{
  SessionAgent, copy_loop, set_local_kv, remove_local_kv, import_settings, set_user_id,
}
use mqant.Gate.Session.Settings.{find-copy_loop, find-import_loop, or_else-none}
use mqant.Gate.Handler.{
  Agent, Handler, HandlerError, Setup, store, write_session, set, remove, push, push_loop, bind,
  import_stored, stored_settings,
}

-- The settings of a session; a nil map has no keys.
abbrev pub settings_of : SessionAgent → Dict Bytes
settings_of s = elim s.session.settings [ none ↦ [] | some m ↦ m ]

-- What the session of an id has under a key, in the gate.
abbrev pub setting : Bytes → Bytes → Handler → Option Bytes
setting id k h = elim (find id h.sessions) [
  | none ↦ none
  | some a ↦ elim a.session [ none ↦ none | some s ↦ find k (settings_of s) ]
]

-- The gate holds the session s of an agent, which has a map of settings.
pub record Holds (id : Bytes) (h : Handler) : Type 0 where
  pub agent : Agent
  pub session : SessionAgent
  pub settings : Dict Bytes
  pub found : find id h.sessions ≡ some agent
  pub of_agent : agent.session ≡ some session
  pub of_session : session.session.settings ≡ some settings

-- What the storage gets changes nothing but what was stored.
store-sessions :
    (g : Setup) (s : SessionAgent) (h : Handler)
    → (h' : Handler) × (store g s h ≡ (ok tt, h')) × (h'.sessions ≡ h.sessions)
store-sessions g s h = elim (Bool-cases (same s.session.user_id [])) [
  | inl e ↦ (h, ground (arith, e), refl)
  | inr e ↦ elim (Option-cases g.storage) [
    | inl f ↦ (h, ground (arith, e, f), refl)
    | inr (query, f) ↦
        (record h { stored = h.stored ++ s.session ∷ [] }, ground (arith, e, f), refl)
  ]
]

setting-sessions :
    (id k : Bytes) (h h' : Handler) → h'.sessions ≡ h.sessions → setting id k h' ≡ setting id k h
setting-sessions id k h h' e = cc

setting-write_session :
    (id j k : Bytes) (a : Agent) (s : SessionAgent) (h : Handler)
    → setting j k (write_session id a s h)
      ≡ (if same id j then find k (settings_of s) else setting j k h)
setting-write_session id j k a s h = elim (Bool-cases (same id j)) [
  | inl e ↦ ground (arith, e, find-put id j (record a { session = some s }) h.sessions)
  | inr e ↦ ground (arith, e, find-put id j (record a { session = some s }) h.sessions)
]

-- The end of the calls: the session is stored, and answered.
abbrev finish : Setup → SessionAgent → Handler → Result HandlerError SessionAgent × Handler
finish g s h = continue (store g s h) (λ u. pure s)

-- A call that answers a session answers it as it is then in the gate, where the sessions have under
-- their keys what is said.
abbrev pub Answers :
    (Result HandlerError SessionAgent × Handler) → Bytes → (Bytes → Bytes → Option Bytes) → Type 0
Answers r id after =
    (s : SessionAgent) × (h' : Handler) × (r ≡ (ok s, h'))
    × ((j k : Bytes) → setting j k h' ≡ after j k)
    × ((k : Bytes) → find k (settings_of s) ≡ after id k)

Answers-finish :
    (g : Setup) {id : Bytes} (s : SessionAgent) (h : Handler)
    {r : Result HandlerError SessionAgent × Handler} {after : Bytes → Bytes → Option Bytes}
    → r ≡ finish g s h
    → ((j k : Bytes) → setting j k h ≡ after j k)
    → ((k : Bytes) → find k (settings_of s) ≡ after id k)
    → Answers r id after
Answers-finish g s h e f v =
    let (h', q, u) = store-sessions g s h in
    (s, h', e ∙ cc, λ j k. setting-sessions j k h h' u ∙ f j k, v)

pub Answers-known :
    {r : Result HandlerError SessionAgent × Handler} {id : Bytes}
    {after : Bytes → Bytes → Option Bytes} (s : SessionAgent) (h' : Handler)
    → r ≡ (ok s, h')
    → Answers r id after
    → ((j k : Bytes) → setting j k h' ≡ after j k)
      × ((k : Bytes) → find k (settings_of s) ≡ after id k)
Answers-known s h' e (s0, h0, q, u, v) =
    let p : s ≡ s0 = cc in
    let p' : h' ≡ h0 = cc in
    (λ j k. ap (setting j k) p' ∙ u j k, λ k. ap (λ x. find k (settings_of x)) p ∙ v k)

setting-Holds :
    {id : Bytes} {h : Handler} (x : Holds id h) (j k : Bytes)
    → same id j ≡ true
    → setting j k h ≡ find k x.settings
setting-Holds {id = id} x j k e = ground (arith, same→eq id j e)

-- The session with other settings.
abbrev with_map : SessionAgent → Dict Bytes → SessionAgent
with_map s m = record s { session = record s.session { settings = some m } }

pub set-Answers :
    (g : Setup) (id key value : Bytes) (h : Handler)
    → Holds id h
    → Answers
        (set g id key value h)
        id
        (λ j k. if same id j && same key k then some value else setting j k h)
unfolding set set_local_kv
set-Answers g id key value h x =
    let s = with_map x.session (put key value x.settings) in
    Answers-finish g s (write_session id x.agent s h) (ground arith)
      (λ j k.
        setting-write_session id j k x.agent s h
        ∙ ground (arith, find-put key k value x.settings, setting-Holds x j k))
      (λ k. ground (arith, find-put key k value x.settings, setting-Holds x id k, same_refl id))

pub remove-Answers :
    (g : Setup) (id key : Bytes) (h : Handler)
    → Holds id h
    → Answers
        (remove g id key h)
        id
        (λ j k. if same id j && same key k then none else setting j k h)
unfolding remove remove_local_kv
remove-Answers g id key h x =
    let s = with_map x.session (erase key x.settings) in
    Answers-finish g s (write_session id x.agent s h) (ground arith)
      (λ j k.
        setting-write_session id j k x.agent s h
        ∙ ground (arith, find-erase key k x.settings, setting-Holds x j k))
      (λ k. ground (arith, find-erase key k x.settings, setting-Holds x id k, same_refl id))

-- The loop of `Push` writes the pairs one after another.
push_loop-written :
    (id : Bytes) (a : Agent) (m : Dict Bytes) (s : SessionAgent) (h : Handler) (old : Dict Bytes)
    → s.session.settings ≡ some old
    → ((j k : Bytes) → same id j ≡ true → setting j k h ≡ find k old)
    → (h' : Handler) × (push_loop id a m s h ≡ (ok (with_map s (copy_loop old m)), h'))
      × ((j k : Bytes)
          → setting j k h' ≡ (if same id j then find k (copy_loop old m) else setting j k h))
unfolding push_loop set_local_kv
push_loop-written id a [] s h old e f = (h, ground arith, λ j k. ground (arith, f j k))
push_loop-written id a ((k', v) ∷ m) s h old e f =
    let s' = with_map s (put k' v old) in
    let h1 = write_session id a s' h in
    let (h', q, u) =
      push_loop-written id a m s' h1 (put k' v old) refl
        (λ j k g. setting-write_session id j k a s' h ∙ ground (arith, g)) in
    (h', ground (arith, q), λ j k. u j k ∙ ground (arith, setting-write_session id j k a s' h))

-- The settings that are stored for a user, if they are read.
abbrev pub stored_of : Setup → Bytes → Bytes → Option Bytes
stored_of g user_id k =
    if same user_id []
    then none
    else elim (stored_settings g user_id) [ none ↦ none | some m ↦ find k m ]

pub push-Answers :
    (g : Setup) (id : Bytes) (m : Dict Bytes) (h : Handler)
    → Holds id h
    → IsDict m
    → Answers
        (push g id m h)
        id
        (λ j k. if same id j then or_else (find k m) (setting j k h) else setting j k h)
unfolding push
push-Answers g id m h x d =
    let s = with_map x.session (copy_loop x.settings m) in
    let (h', q, u) =
      push_loop-written id x.agent m x.session h x.settings x.of_session (setting-Holds x) in
    Answers-finish g s h' (ground (arith, q))
      (λ j k. u j k ∙ ground (arith, find-copy_loop k x.settings m d, setting-Holds x j k))
      (λ k. ground (arith, find-copy_loop k x.settings m d, setting-Holds x id k, same_refl id))

-- What `Bind` makes of the session: its own settings win over the stored ones.
abbrev bound : Setup → Bytes → SessionAgent → SessionAgent
bound g user_id s = import_stored g user_id (set_user_id user_id s)

find-bound :
    (g : Setup) (user_id k : Bytes) (s : SessionAgent) (old : Dict Bytes)
    → s.session.settings ≡ some old
    → find k (settings_of (bound g user_id s)) ≡ or_else (find k old) (stored_of g user_id k)
unfolding set_user_id import_settings
find-bound g user_id k s old e = elim (Bool-cases (same user_id [])) [
  | inl f ↦ ground (arith, f, or_else-none (find k old))
  | inr f ↦ elim (Option-cases (stored_settings g user_id)) [
    | inl q ↦ ground (arith, f, q, or_else-none (find k old))
    | inr (m, q) ↦ ground (arith, f, q, find-import_loop k old m)
  ]
]

-- `Bind` of a session that the gate holds with a map of settings answers the session with its own
-- settings and those that are stored for the user under the keys that it has not; the gate holds
-- these settings then, and no other session changes.
pub bind-Answers :
    (g : Setup) (id user_id : Bytes) (h : Handler)
    → Holds id h
    → Answers (bind g id user_id h) id (λ j k.
      if same id j then or_else (setting j k h) (stored_of g user_id k) else setting j k h)
unfolding bind
bind-Answers g id user_id h x =
    let s = bound g user_id x.session in
    Answers-finish g s (write_session id x.agent s h) (ground arith)
      (λ j k.
        setting-write_session id j k x.agent s h
        ∙ ground
            (arith, find-bound g user_id k x.session x.settings x.of_session, setting-Holds x j k))
      (λ k.
        find-bound g user_id k x.session x.settings x.of_session
        ∙ ground (arith, setting-Holds x id k, same_refl id))
