-- ===== src/Gate/Handler/Keeping.antt =====
-- gate/base/gate_handler.go: the calls of other modules change neither which sessions the gate holds
-- nor which of their agents have shaken hands.
use mqant.Prelude.{
  ℕ, ◌+◌, Bool, Option, some, List, [], ◌∷◌, ◌++◌, Bytes, same, Dict, find, put, find-put,
  same_refl, Result, ok, err, panic, continue, pure, ◌>>=◌, ◌>>◌, ◌≡◌, refl, sym, ap, ◌∙◌, subst,
  inl, inr, arith, Bool-cases, Option-cases,
}
use mqant.Gate.Session.{SessionAgent, set_local_kv, remove_local_kv, set_user_id}
use mqant.Gate.Handler.{
  Agent, Handler, HandlerError, Setup, Call, get_agent, session_of, or_crash, save, store,
  write_session, import_stored, update, bind, unbind, push_loop, push, set, remove, send, send_loop,
  split, send_batch, is_connect, is_connect_loop, close, broadcast, broadcast_loop,
}

-- The keys of the table, each with whether its agent has shaken hands.
abbrev pub outline : Dict Agent → Dict Bool
outline [] = []
outline ((k, a) ∷ m) = (k, a.protocol_ok) ∷ outline m

pub outline-put :
    (k : Bytes) (a : Agent) (m : Dict Agent) → outline (put k a m) ≡ put k a.protocol_ok (outline m)
outline-put k a [] = refl
outline-put k a ((k', a') ∷ m) = elim (Bool-cases (same k' k)) [
  | inl e ↦ ground (arith, e)
  | inr e ↦ ground (arith, e, outline-put k a m)
]

pub find-outline :
    (k : Bytes) (a : Agent) (m : Dict Agent)
    → find k m ≡ some a
    → find k (outline m) ≡ some a.protocol_ok
find-outline k a [] e = absurd cc
find-outline k a ((k', a') ∷ m) e = elim (Bool-cases (same k' k)) [
  | inl f ↦ ground (arith, e, f)
  | inr f ↦ ground (arith, e, f, find-outline k a m)
]

-- To write under a key what is there changes nothing.
put-find {ℓ} : {A : Type ℓ} (k : Bytes) (v : A) (m : Dict A) → find k m ≡ some v → put k v m ≡ m
put-find k v [] e = absurd cc
put-find k v ((k', v') ∷ m) e = elim (Bool-cases (same k' k)) [
  | inl f ↦ ground (arith, e, f)
  | inr f ↦ ground (arith, e, f, put-find k v m)
]

-- What a call keeps.
pub record Kept (h h' : Handler) : Type 0 where
  pub agent_num : h'.agent_num ≡ h.agent_num
  pub table : outline h'.sessions ≡ outline h.sessions

Kept-refl : (h : Handler) → Kept h h
Kept-refl h = record { agent_num = refl; table = refl }

Kept-trans : {h h' h'' : Handler} → Kept h h' → Kept h' h'' → Kept h h''
Kept-trans k l = record { agent_num = l.agent_num ∙ k.agent_num; table = l.table ∙ k.table }

-- An agent is replaced by one that has shaken hands if it had.
Kept-put :
    (id : Bytes) (a a' : Agent) (h : Handler)
    → find id h.sessions ≡ some a
    → a'.protocol_ok ≡ a.protocol_ok
    → Kept h (record h { sessions = put id a' h.sessions })
Kept-put id a a' h e f = record {
  agent_num = refl;
  table =
      outline-put id a' h.sessions
      ∙ ap (λ b. put id b (outline h.sessions)) f
      ∙ put-find id a.protocol_ok (outline h.sessions) (find-outline id a h.sessions e);
}

Kept-store : (g : Setup) (s : SessionAgent) (h : Handler) → Kept h (store g s h).1
Kept-store g s h = elim (Bool-cases (same s.session.user_id [])) [
  | inl e ↦ record { agent_num = ground (arith, e); table = ground (arith, e) }
  | inr e ↦ elim (Option-cases g.storage) [
    | inl f ↦ record { agent_num = ground (arith, e, f); table = ground (arith, e, f) }
    | inr (query, f) ↦ record { agent_num = ground (arith, e, f); table = ground (arith, e, f) }
  ]
]

-- The calls that change one session: `f` is what becomes of it, none where the call panics.
abbrev edit : Setup → Bytes → (SessionAgent → Option SessionAgent) → Call SessionAgent
edit g id f = do
  a ← get_agent id
  s ← session_of a
  s' ← or_crash (f s)
  save id a s'
  store g s'
  pure s'

store-finish :
    (g : Setup) (s : SessionAgent) (h : Handler)
    → (continue (store g s h) (λ u. pure s)).1 ≡ (store g s h).1
store-finish g s h = elim (Bool-cases (same s.session.user_id [])) [
  | inl e ↦ ground (arith, e)
  | inr e ↦ elim (Option-cases g.storage) [
    | inl f ↦ ground (arith, e, f)
    | inr (query, f) ↦ ground (arith, e, f)
  ]
]

Kept-eq : {h h' h'' : Handler} → h'' ≡ h' → Kept h h' → Kept h h''
Kept-eq {h = h} e k = subst (λ x. Kept h x) (sym e) k

Kept-none : {h h' : Handler} → h' ≡ h → Kept h h'
Kept-none {h = h} e = Kept-eq e (Kept-refl h)

Kept-write :
    (id : Bytes) (a : Agent) (s : SessionAgent) (h : Handler)
    → find id h.sessions ≡ some a
    → Kept h (write_session id a s h)
Kept-write id a s h e = Kept-put id a (record a { session = some s }) h e refl

edit-Kept :
    (g : Setup) (id : Bytes) (f : SessionAgent → Option SessionAgent) (h : Handler)
    → Kept h (edit g id f h).1
edit-Kept g id f h = elim (Option-cases (find id h.sessions)) [
  | inl e ↦ Kept-none (ground (arith, e))
  | inr (a, e) ↦ elim (Option-cases a.session) [
    | inl q ↦ Kept-none (ground (arith, e, q))
    | inr (s, q) ↦ elim (Option-cases (f s)) [
      | inl r ↦ Kept-none (ground (arith, e, q, r))
      | inr (s', r) ↦
          Kept-eq (ground (arith, e, q, r, store-finish g s' (write_session id a s' h)))
            (Kept-trans (Kept-write id a s' h e) (Kept-store g s' (write_session id a s' h)))
    ]
  ]
]

pub set-Kept : (g : Setup) (id key value : Bytes) (h : Handler) → Kept h (set g id key value h).1
unfolding set
set-Kept g id key value h = edit-Kept g id (set_local_kv key value) h

pub remove-Kept : (g : Setup) (id key : Bytes) (h : Handler) → Kept h (remove g id key h).1
unfolding remove
remove-Kept g id key h = edit-Kept g id (λ s. some (remove_local_kv key s)) h

pub bind-Kept : (g : Setup) (id user_id : Bytes) (h : Handler) → Kept h (bind g id user_id h).1
unfolding bind
bind-Kept g id user_id h =
    edit-Kept g id (λ s. some (import_stored g user_id (set_user_id user_id s))) h

pub unbind-Kept : (id : Bytes) (h : Handler) → Kept h (unbind id h).1
unfolding unbind
unbind-Kept id h = elim (Option-cases (find id h.sessions)) [
  | inl e ↦ Kept-none (ground (arith, e))
  | inr (a, e) ↦ elim (Option-cases a.session) [
    | inl q ↦ Kept-none (ground (arith, e, q))
    | inr (s, q) ↦ Kept-eq (ground (arith, e, q)) (Kept-write id a (set_user_id [] s) h e)
  ]
]

push_loop-Kept :
    (id : Bytes) (a b : Agent) (m : Dict Bytes) (s : SessionAgent) (h : Handler)
    → find id h.sessions ≡ some b
    → b.protocol_ok ≡ a.protocol_ok
    → Kept h (push_loop id a m s h).1
unfolding push_loop
push_loop-Kept id a b [] s h e f = Kept-refl h
push_loop-Kept id a b ((k, v) ∷ m) s h e f = elim (Option-cases (set_local_kv k v s)) [
  | inl q ↦ Kept-none (ground (arith, q))
  | inr (s', q) ↦
      let a' : Agent = record a { session = some s' } in
      Kept-eq (ground (arith, q)) (
        Kept-trans (Kept-put id b a' h e (sym f)) (
          push_loop-Kept id a a' m s' (write_session id a s' h)
            (find-put id id a' h.sessions ∙ ground (arith, same_refl id)) refl))
]

-- A session that was made is stored and answered.
finish-Kept :
    (g : Setup) {h : Handler} (r : Result HandlerError SessionAgent × Handler)
    → Kept h r.1
    → Kept h (continue r (λ s h'. continue (store g s h') (λ u. pure s))).1
finish-Kept g (ok s, h') k = Kept-trans k (Kept-eq (store-finish g s h') (Kept-store g s h'))
finish-Kept g (err e, h') k = k
finish-Kept g (panic, h') k = k

pub push-Kept : (g : Setup) (id : Bytes) (m : Dict Bytes) (h : Handler) → Kept h (push g id m h).1
unfolding push
push-Kept g id m h = elim (Option-cases (find id h.sessions)) [
  | inl e ↦ Kept-none (ground (arith, e))
  | inr (a, e) ↦ elim (Option-cases a.session) [
    | inl q ↦ Kept-none (ground (arith, e, q))
    | inr (s, q) ↦
        Kept-eq (ground (arith, e, q))
          (finish-Kept g (push_loop id a m s h) (push_loop-Kept id a a m s h e refl))
  ]
]

pub send-Kept : (id topic body : Bytes) (h : Handler) → Kept h (send id topic body h).1
unfolding send
send-Kept id topic body h = elim (Option-cases (find id h.sessions)) [
  | inl e ↦ Kept-none (ground (arith, e))
  | inr (a, e) ↦ elim (Option-cases a.refuses) [
    | inl q ↦
        Kept-eq (ground (arith, e, q))
          (Kept-put id a (record a { sent = a.sent ++ (topic, body) ∷ [] }) h e refl)
    | inr (x, q) ↦ Kept-none (ground (arith, e, q))
  ]
]

send_loop-Kept :
    (topic body : Bytes) (ids : List Bytes) (n : ℕ) (h : Handler)
    → Kept h (send_loop topic body ids n h).1
unfolding send_loop
send_loop-Kept topic body [] n h = Kept-refl h
send_loop-Kept topic body (id ∷ ids) n h = elim (Option-cases (find id h.sessions)) [
  | inl e ↦ Kept-eq (ground (arith, e)) (send_loop-Kept topic body ids n h)
  | inr (a, e) ↦ elim (Option-cases a.refuses) [
    | inl q ↦
        let a' : Agent = record a { sent = a.sent ++ (topic, body) ∷ [] } in
        Kept-eq (ground (arith, e, q)) (
          Kept-trans (Kept-put id a a' h e refl)
            (send_loop-Kept topic body ids (n + 1) (record h { sessions = put id a' h.sessions })))
    | inr (x, q) ↦ Kept-eq (ground (arith, e, q)) (send_loop-Kept topic body ids n h)
  ]
]

pub send_batch-Kept :
    (ids topic body : Bytes) (h : Handler) → Kept h (send_batch ids topic body h).1
unfolding send_batch
send_batch-Kept ids topic body h = send_loop-Kept topic body (split 44 ids) 0 h

pub update-Kept : (id : Bytes) (h : Handler) → Kept h (update id h).1
unfolding update
update-Kept id h = elim (Option-cases (find id h.sessions)) [
  | inl e ↦ Kept-none (ground (arith, e))
  | inr (a, e) ↦ Kept-none (ground (arith, e))
]

pub close-Kept : (id : Bytes) (h : Handler) → Kept h (close id h).1
unfolding close
close-Kept id h = elim (Option-cases (find id h.sessions)) [
  | inl e ↦ Kept-none (ground (arith, e))
  | inr (a, e) ↦ record { agent_num = ground (arith, e); table = ground (arith, e) }
]

is_connect_loop-same :
    (user_id : Bytes) (m : Dict Agent) (h : Handler) → (is_connect_loop user_id m h).1 ≡ h
unfolding is_connect_loop
is_connect_loop-same user_id [] h = refl
is_connect_loop-same user_id ((k, a) ∷ m) h = elim (Option-cases a.session) [
  | inl e ↦ ground (arith, e)
  | inr (s, e) ↦ ground (arith, e, is_connect_loop-same user_id m h)
]

pub is_connect-Kept : (user_id : Bytes) (h : Handler) → Kept h (is_connect user_id h).1
unfolding is_connect
is_connect-Kept user_id h = Kept-none (is_connect_loop-same user_id h.sessions h)

broadcast_loop-outline :
    (topic body : Bytes) (m : Dict Agent) → outline (broadcast_loop topic body m).1 ≡ outline m
unfolding broadcast_loop
broadcast_loop-outline topic body [] = refl
broadcast_loop-outline topic body ((k, a) ∷ m) = elim (Option-cases a.refuses) [
  | inl e ↦ ground (arith, e, broadcast_loop-outline topic body m)
  | inr (x, e) ↦ ground (arith, e, broadcast_loop-outline topic body m)
]

pub broadcast-Kept : (topic body : Bytes) (h : Handler) → Kept h (broadcast topic body h).1
unfolding broadcast
broadcast-Kept topic body h = record {
  agent_num = refl;
  table = broadcast_loop-outline topic body h.sessions;
}
