-- ===== src/Gate/Counting.antt =====
-- gate/base/gate_handler.go: the life of a gate as its agents come and go and other modules call it,
-- up to its end.
use mqant.Prelude.{
  ℕ, suc, Bool, false, ◌||◌, if◌then◌else◌, Option, none, some, [], ◌∷◌, Bytes, same, same→eq, Dict,
  find, put, erase, has_key, IsDict, ◌≡◌, refl, sym, ap, ◌∙◌, subst, inl, inr, arith, Bool-cases,
  pos, suc_ℤ, pred_ℤ,
}
use mqant.Gate.Session.{SessionImp, SessionAgent}
use mqant.Gate.Session.Settings.{IsDict-put}
use mqant.Gate.Handler.{Agent, Handler, Setup, new_gate_handler, connect, dis_connect, broadcast}
use mqant.Gate.Handler.Keeping.{
  outline, outline-put, find-outline, Kept, update-Kept, bind-Kept, unbind-Kept, push-Kept,
  set-Kept, remove-Kept, send-Kept, send_batch-Kept, is_connect-Kept, close-Kept, broadcast-Kept,
}
use mqant.Gate.Remote.{
  Request, call_update, call_bind, call_unbind, call_push, call_set, call_remove, call_send,
  call_send_batch, call_is_connect, call_close,
}
use mqant.Gate.Transport.{serve}

-- How many agents of the table have shaken hands.
abbrev pub shaken : Dict Bool → ℕ
shaken [] = 0
shaken ((k, b) ∷ m) = if b then suc (shaken m) else shaken m

shaken-put :
    (k : Bytes) (b : Bool) (m : Dict Bool)
    → has_key k m ≡ false
    → shaken (put k b m) ≡ (if b then suc (shaken m) else shaken m)
shaken-put k b [] e = refl
shaken-put k b ((k', b') ∷ m) e = ground (arith, e, shaken-put k b m)

has_key-outline : (k : Bytes) (m : Dict Agent) → has_key k (outline m) ≡ has_key k m
has_key-outline k [] = refl
has_key-outline k ((k', a) ∷ m) = ap (λ b. same k' k || b) (has_key-outline k m)

outline-erase : (k : Bytes) (m : Dict Agent) → outline (erase k m) ≡ erase k (outline m)
outline-erase k [] = refl
outline-erase k ((k', a) ∷ m) = ground (arith, outline-erase k m)

erase-other {ℓ} : {A : Type ℓ} (k : Bytes) (m : Dict A) → has_key k m ≡ false → erase k m ≡ m
erase-other k [] e = refl
erase-other k ((k', v) ∷ m) e = ground (arith, e, erase-other k m)

shaken-erase :
    (k : Bytes) (b : Bool) (m : Dict Bool)
    → IsDict m
    → find k m ≡ some b
    → shaken m ≡ (if b then suc (shaken (erase k m)) else shaken (erase k m))
shaken-erase k b [] d e = absurd cc
shaken-erase k b ((k', b') ∷ m) (h, d) e = elim (Bool-cases (same k' k)) [
  | inl f ↦ ground (arith, e, f, h, erase-other k m, same→eq k' k f)
  | inr f ↦ ground (arith, e, f, shaken-erase k b m d)
]

has_key-erase : (k j : Bytes) (m : Dict Bool) → has_key j m ≡ false → has_key j (erase k m) ≡ false
has_key-erase k j [] e = refl
has_key-erase k j ((k', b) ∷ m) e = ground (arith, e, has_key-erase k j m)

IsDict-erase : (k : Bytes) (m : Dict Bool) → IsDict m → IsDict (erase k m)
IsDict-erase k [] d = tt
IsDict-erase k ((k', b) ∷ m) (h, d) = elim (Bool-cases (same k' k)) [
  | inl f ↦
      subst (λ l. IsDict {A = Bool} l) {x = erase k m} {y = erase k ((k', b) ∷ m)}
        (ground (arith, f)) (IsDict-erase k m d)
  | inr f ↦
      subst (λ l. IsDict {A = Bool} l) {x = (k', b) ∷ erase k m} {y = erase k ((k', b) ∷ m)}
        (ground (arith, f)) (has_key-erase k k' m h, IsDict-erase k m d)
]

-- The counter of the gate is the number of its agents that have shaken hands; a key stands once.
pub record IsCounted (h : Handler) : Type 0 where
  pub is_dict : IsDict {A = Bool} (outline h.sessions)
  pub counted : h.agent_num ≡ pos (shaken (outline h.sessions))

Kept-IsCounted : {h h' : Handler} → Kept h h' → IsCounted h → IsCounted h'
Kept-IsCounted k c = record {
  is_dict = subst (λ l. IsDict {A = Bool} l) (sym k.table) c.is_dict;
  counted = k.agent_num ∙ c.counted ∙ ap (λ l. pos (shaken l)) (sym k.table);
}

connect-state :
    (g : Setup) (a : Agent) (s : SessionAgent) (h : Handler)
    → a.session ≡ some s
    → ((connect g a h).sessions ≡ put s.session.session_id a h.sessions)
      × ((connect g a h).agent_num ≡ (if a.protocol_ok then suc_ℤ h.agent_num else h.agent_num))
unfolding connect
connect-state g a s h e = elim (Bool-cases g.has_learner) [
  | inl f ↦ (ground (arith, e, f), ground (arith, e, f))
  | inr f ↦ (ground (arith, e, f), ground (arith, e, f))
]

dis_connect-state :
    (g : Setup) (a : Agent) (s : SessionAgent) (h : Handler)
    → a.session ≡ some s
    → ((dis_connect g a h).sessions ≡ erase s.session.session_id h.sessions)
      × ((dis_connect g a h).agent_num
          ≡ (if a.protocol_ok then pred_ℤ h.agent_num else h.agent_num))
unfolding dis_connect
dis_connect-state g a s h e = elim (Bool-cases g.has_learner) [
  | inl f ↦ (ground (arith, e, f), ground (arith, e, f))
  | inr f ↦ (ground (arith, e, f), ground (arith, e, f))
]

connect-IsCounted :
    (g : Setup) (a : Agent) (s : SessionAgent) (h : Handler)
    → a.session ≡ some s
    → has_key s.session.session_id h.sessions ≡ false
    → IsCounted h
    → IsCounted (connect g a h)
connect-IsCounted g a s h e f c =
    let (p, q) = connect-state g a s h e in
    let o : outline (connect g a h).sessions
        ≡ put s.session.session_id a.protocol_ok (outline h.sessions) =
      ap outline p ∙ outline-put s.session.session_id a h.sessions in
    let n : shaken (put s.session.session_id a.protocol_ok (outline h.sessions)) ≡ _ =
      shaken-put s.session.session_id a.protocol_ok (outline h.sessions)
        (has_key-outline s.session.session_id h.sessions ∙ f) in
    record {
      is_dict =
          subst (λ l. IsDict {A = Bool} l) (sym o)
            (IsDict-put s.session.session_id a.protocol_ok (outline h.sessions) c.is_dict);
      counted = ground (arith, q, c.counted, o, n);
    }

dis_connect-IsCounted :
    (g : Setup) (a : Agent) (s : SessionAgent) (h : Handler)
    → a.session ≡ some s
    → shaken (outline h.sessions) ≡ (
        if a.protocol_ok
        then suc (shaken (erase s.session.session_id (outline h.sessions)))
        else shaken (erase s.session.session_id (outline h.sessions)))
    → IsCounted h
    → IsCounted (dis_connect g a h)
dis_connect-IsCounted g a s h e n c =
    let (p, q) = dis_connect-state g a s h e in
    let o : outline (dis_connect g a h).sessions ≡ erase s.session.session_id (outline h.sessions) =
      ap outline p ∙ outline-erase s.session.session_id h.sessions in
    record {
      is_dict =
          subst (λ l. IsDict {A = Bool} l) (sym o)
            (IsDict-erase s.session.session_id (outline h.sessions) c.is_dict);
      counted = ground (arith, q, c.counted, o, n);
    }

-- The states that a gate comes to.
module _ (g : Setup) (marshal : SessionImp → Option Bytes) (span : Bytes) where
  pub data Step : Handler → Handler → Type 0 where
    -- An agent whose session has a new id has shaken hands, or not.
    connects :
        {h : Handler} (a : Agent) (s : SessionAgent)
        → a.session ≡ some s
        → has_key s.session.session_id h.sessions ≡ false
        → Step h (connect g a h)
    -- An agent of the table ends.
    disconnects :
        {h : Handler} (a : Agent) (s : SessionAgent)
        → a.session ≡ some s
        → find s.session.session_id h.sessions ≡ some a
        → Step h (dis_connect g a h)
    -- An agent ends before it has a session.
    refused : {h : Handler} (a : Agent) → a.session ≡ none → Step h (dis_connect g a h)
    -- An agent ends that has a session and could not be told so.
    unanswered :
        {h : Handler} (a : Agent) (s : SessionAgent)
        → a.session ≡ some s
        → a.protocol_ok ≡ false
        → has_key s.session.session_id h.sessions ≡ false
        → Step h (dis_connect g a h)
    serves : {h : Handler} (request : Request) → Step h (serve g marshal span request h).1
    broadcasts : {h : Handler} (topic body : Bytes) → Step h (broadcast topic body h).1

  pub data Reach : Handler → Type 0 where
    starts : Reach new_gate_handler
    goes : {h h' : Handler} → Reach h → Step h h' → Reach h'

  serves-Kept : (request : Request) (h : Handler) → Kept h (serve g marshal span request h).1
  unfolding serve
  serves-Kept (call_update id) h = update-Kept id h
  serves-Kept (call_bind id user_id) h = bind-Kept g id user_id h
  serves-Kept (call_unbind id) h = unbind-Kept id h
  serves-Kept (call_push id m) h = push-Kept g id m h
  serves-Kept (call_set id key value) h = set-Kept g id key value h
  serves-Kept (call_remove id key) h = remove-Kept g id key h
  serves-Kept (call_send id topic body) h = send-Kept id topic body h
  serves-Kept (call_send_batch ids topic body) h = send_batch-Kept ids topic body h
  serves-Kept (call_is_connect id user_id) h = is_connect-Kept user_id h
  serves-Kept (call_close id) h = close-Kept id h

  Step-IsCounted : {h h' : Handler} → Step h h' → IsCounted h → IsCounted h'
  unfolding dis_connect
  Step-IsCounted {h = h} (connects a s e f) c = connect-IsCounted g a s h e f c
  Step-IsCounted {h = h} (disconnects a s e f) c =
      dis_connect-IsCounted g a s h e
        (shaken-erase s.session.session_id a.protocol_ok (outline h.sessions) c.is_dict
          (find-outline s.session.session_id a h.sessions f))
        c
  Step-IsCounted {h = h} (refused a e) c = subst (λ x. IsCounted x) (ground (arith, e)) c
  Step-IsCounted {h = h} (unanswered a s e f q) c =
      dis_connect-IsCounted g a s h e
        (ground (
          arith,
          f,
          erase-other s.session.session_id (outline h.sessions)
              (has_key-outline s.session.session_id h.sessions ∙ q),
        ))
        c
  Step-IsCounted {h = h} (serves request) c = Kept-IsCounted (serves-Kept request h) c
  Step-IsCounted {h = h} (broadcasts topic body) c = Kept-IsCounted (broadcast-Kept topic body h) c

  -- Whatever agents come and go and whatever other modules call, the number of agents of the gate is
  -- the number of the agents in its table that have shaken hands, and no id stands in the table
  -- twice (a session that connects is assumed to have an id that is not in the table).
  pub Reach-IsCounted : (h : Handler) → Reach h → IsCounted h
  Reach-IsCounted h starts = record { is_dict = tt; counted = refl }
  Reach-IsCounted h (goes r s) = Step-IsCounted s (Reach-IsCounted _ r)
