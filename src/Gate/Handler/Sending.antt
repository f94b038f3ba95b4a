-- ===== src/Gate/Handler/Sending.antt =====
-- gate/base/gate_handler.go: who gets the messages of `SendBatch` and `BroadCast`.
use mqant.Prelude.{
  ℕ, zero, suc, ◌+◌, ◌==◌, Bool, true, false, ◌||◌, if◌then◌else◌, Option, none, some, List, [],
  ◌∷◌, ◌++◌, append-nil, append_assoc, Bytes, same, same→eq, Dict, find, put, find-put, ◌≡◌, refl,
  sym, ap, ◌∙◌, subst, inl, inr, arith, Bool-cases, Option-cases,
}
use mqant.Gate.Handler.{Agent, Handler, split_loop, split, send_loop, send_batch}

-- The ids with commas between them.
abbrev pub join : List Bytes → Bytes
join [] = []
join (id ∷ []) = id
join (id ∷ id' ∷ ids) = id ++ 44 ∷ join (id' ∷ ids)

abbrev has_byte : ℕ → Bytes → Bool
has_byte c [] = false
has_byte c (x ∷ s) = (x == c) || has_byte c s

-- No id has a comma.
abbrev pub AreIds : List Bytes → Type 0
AreIds [] = Unit
AreIds (id ∷ ids) = (has_byte 44 id ≡ false) × AreIds ids

split_loop-field :
    (field id s : Bytes)
    → has_byte 44 id ≡ false
    → split_loop 44 field (id ++ s) ≡ split_loop 44 (field ++ id) s
unfolding split_loop
split_loop-field field [] s e = ap (λ x. split_loop 44 x s) (sym (append-nil field))
split_loop-field field (c ∷ id) s e =
    ground (arith, e, split_loop-field (field ++ c ∷ []) id s, append_assoc field (c ∷ []) id)

split-join :
    (id : Bytes) (ids : List Bytes) → AreIds (id ∷ ids) → split 44 (join (id ∷ ids)) ≡ id ∷ ids
unfolding split_loop
split-join id [] (e, d) =
    ap (λ s. split_loop 44 [] s) (sym (append-nil id)) ∙ split_loop-field [] id [] e
split-join id (id' ∷ ids) (e, d) =
    split_loop-field [] id (44 ∷ join (id' ∷ ids)) e ∙ ap (λ l. id ∷ l) (split-join id' ids d)

-- How often an id stands in a list.
abbrev pub times : Bytes → List Bytes → ℕ
times j [] = 0
times j (id ∷ ids) = if same id j then suc (times j ids) else times j ids

-- The message n times.
abbrev pub copies : ℕ → Bytes × Bytes → List (Bytes × Bytes)
copies zero x = []
copies (suc n) x = x ∷ copies n x

-- An agent that has got the message n times, unless it refuses.
abbrev pub got : ℕ → Bytes × Bytes → Agent → Agent
got n x a = elim a.refuses [ none ↦ record a { sent = a.sent ++ copies n x } | some e ↦ a ]

abbrev pub takes : Agent → Bool
takes a = elim a.refuses [ none ↦ true | some e ↦ false ]

-- How many of the ids are those of agents that take a message.
abbrev pub takers : List Bytes → Dict Agent → ℕ
takers [] m = 0
takers (id ∷ ids) m = elim (find id m) [
  | none ↦ takers ids m
  | some a ↦ if takes a then suc (takers ids m) else takers ids m
]

abbrev pub got_of : ℕ → Bytes × Bytes → Option Agent → Option Agent
got_of n x none = none
got_of n x (some a) = some (got n x a)

got_of-zero : (x : Bytes × Bytes) (o : Option Agent) → got_of 0 x o ≡ o
got_of-zero x none = refl
got_of-zero x (some a) = elim (Option-cases a.refuses) [
  | inl e ↦ ground (arith, e, append-nil a.sent)
  | inr (r, e) ↦ ground (arith, e)
]

takers-got :
    (ids : List Bytes) (m m' : Dict Agent) (x : Bytes × Bytes) (n : Bytes → ℕ)
    → ((j : Bytes) → find j m' ≡ got_of (n j) x (find j m))
    → takers ids m' ≡ takers ids m
takers-got [] m m' x n f = refl
takers-got (id ∷ ids) m m' x n f = elim (Option-cases (find id m)) [
  | inl e ↦ ground (arith, e, f id, takers-got ids m m' x n f)
  | inr (a, e) ↦ elim (Option-cases a.refuses) [
    | inl q ↦ ground (arith, e, q, f id, takers-got ids m m' x n f)
    | inr (r, q) ↦ ground (arith, e, q, f id, takers-got ids m m' x n f)
  ]
]

-- One agent gets the message.
find-sent_one :
    (id j : Bytes) (a : Agent) (x : Bytes × Bytes) (m : Dict Agent)
    → find id m ≡ some a
    → a.refuses ≡ none
    → find j (put id (record a { sent = a.sent ++ x ∷ [] }) m)
      ≡ got_of (if same id j then 1 else 0) x (find j m)
find-sent_one id j a x m e q = elim (Bool-cases (same id j)) [
  | inl f ↦
      find-put id j (record a { sent = a.sent ++ x ∷ [] }) m
      ∙ ground (arith, e, q, f, same→eq id j f)
  | inr f ↦
      find-put id j (record a { sent = a.sent ++ x ∷ [] }) m
      ∙ ground (arith, f, got_of-zero x (find j m))
]

got_of-suc :
    (n : ℕ) (x : Bytes × Bytes) (a : Agent)
    → a.refuses ≡ none
    → got_of n x (some (record a { sent = a.sent ++ x ∷ [] })) ≡ got_of (suc n) x (some a)
got_of-suc n x a q = ground (arith, q, append_assoc a.sent (x ∷ []) (copies n x))

-- An id whose agent is not there, or refuses, makes no difference.
got_of-skipped :
    (id j : Bytes) (ids : List Bytes) (x : Bytes × Bytes) (m : Dict Agent)
    → ((n k : ℕ) → got_of n x (find id m) ≡ got_of k x (find id m))
    → got_of (times j (id ∷ ids)) x (find j m) ≡ got_of (times j ids) x (find j m)
got_of-skipped id j ids x m f = elim (Bool-cases (same id j)) [
  | inl e ↦ ground (arith, e, same→eq id j e, f (suc (times j ids)) (times j ids))
  | inr e ↦ ground (arith, e)
]

-- The loop, for an agent that takes the message and then the rest.
got_of-taken :
    (id j : Bytes) (ids : List Bytes) (a : Agent) (x : Bytes × Bytes) (m : Dict Agent)
    → find id m ≡ some a
    → a.refuses ≡ none
    → got_of (times j ids) x (find j (put id (record a { sent = a.sent ++ x ∷ [] }) m))
      ≡ got_of (times j (id ∷ ids)) x (find j m)
got_of-taken id j ids a x m e q = elim (Bool-cases (same id j)) [
  | inl f ↦
      ap (got_of (times j ids) x) (find-put id j (record a { sent = a.sent ++ x ∷ [] }) m)
      ∙ ground (arith, e, f, same→eq id j f, got_of-suc (times j ids) x a q)
  | inr f ↦
      ap (got_of (times j ids) x) (find-put id j (record a { sent = a.sent ++ x ∷ [] }) m)
      ∙ ground (arith, f)
]

refused_same :
    (x : Bytes × Bytes) (o : Option Agent) (a : Agent) (r : Bytes)
    → o ≡ some a
    → a.refuses ≡ some r
    → (n k : ℕ) → got_of n x o ≡ got_of k x o
refused_same x o a r e q n k = ground (arith, e, q)

-- What the loop of `SendBatch` comes to.
unfoldable pub Sends : Bytes × Bytes → List Bytes → ℕ → Handler → ℕ × Handler → Type 0
Sends x ids n h (count, h') =
    (count ≡ n + takers ids h.sessions)
    × ((j : Bytes) → find j h'.sessions ≡ got_of (times j ids) x (find j h.sessions))

Sends-eq :
    (x : Bytes × Bytes) (ids : List Bytes) (n : ℕ) (h : Handler) (r s : ℕ × Handler)
    → r ≡ s
    → Sends x ids n h s
    → Sends x ids n h r
Sends-eq x ids n h r s e w = subst (λ r. Sends x ids n h r) (sym e) w

send_loop-Sends :
    (topic body : Bytes) (ids : List Bytes) (n : ℕ) (h : Handler)
    → Sends (topic, body) ids n h (send_loop topic body ids n h)
unfolding Sends send_loop
send_loop-Sends topic body [] n h =
    (omega arith, λ j. sym (got_of-zero (topic, body) (find j h.sessions)))
send_loop-Sends topic body (id ∷ ids) n h = elim (Option-cases (find id h.sessions)) [
  | inl e ↦
      let (p, f) = send_loop-Sends topic body ids n h in
      Sends-eq (topic, body) (id ∷ ids) n h (send_loop topic body (id ∷ ids) n h)
        (send_loop topic body ids n h) (ground (arith, e))
        (
          ground (arith, e, p),
          λ j.
              f j
              ∙ sym (got_of-skipped id j ids (topic, body) h.sessions (λ n k. ground (arith, e))),
        )
  | inr (a, e) ↦ elim (Option-cases a.refuses) [
    | inl q ↦
        let (p, f) = send_loop-Sends topic body ids (n + 1) (record h {
          sessions = put id (record a { sent = a.sent ++ (topic, body) ∷ [] }) h.sessions;
        }) in
        Sends-eq (topic, body) (id ∷ ids) n h (send_loop topic body (id ∷ ids) n h)
          (send_loop topic body ids (n + 1) (record h {
            sessions = put id (record a { sent = a.sent ++ (topic, body) ∷ [] }) h.sessions;
          }))
          (ground (arith, e, q))
          (
            p
                ∙ ground (
                  arith,
                  e,
                  q,
                  takers-got ids h.sessions
                      (put id (record a { sent = a.sent ++ (topic, body) ∷ [] }) h.sessions)
                      (topic, body) (λ j. if same id j then 1 else 0)
                      (λ j. find-sent_one id j a (topic, body) h.sessions e q),
                ),
            λ j. f j ∙ got_of-taken id j ids a (topic, body) h.sessions e q,
          )
    | inr (r, q) ↦
        let (p, f) = send_loop-Sends topic body ids n h in
        Sends-eq (topic, body) (id ∷ ids) n h (send_loop topic body (id ∷ ids) n h)
          (send_loop topic body ids n h) (ground (arith, e, q))
          (
            ground (arith, e, q, p),
            λ j.
                f j
                ∙ sym (
                    got_of-skipped id j ids (topic, body) h.sessions
                      (refused_same (topic, body) (find id h.sessions) a r e q)),
          )
  ]
]

-- `SendBatch` on ids without commas, joined by commas, counts the ids whose agents are there and do
-- not refuse, and each of these agents gets the message once for each time that its id stands in the
-- list; nothing is sent to any other.
pub send_batch-Sends :
    (id : Bytes) (ids : List Bytes) (topic body : Bytes) (h : Handler)
    → AreIds (id ∷ ids)
    → Sends (topic, body) (id ∷ ids) 0 h (send_batch (join (id ∷ ids)) topic body h)
unfolding send_batch
send_batch-Sends id ids topic body h d =
    subst (λ l. Sends (topic, body) (id ∷ ids) 0 h (send_loop topic body l 0 h))
      (sym (split-join id ids d)) (send_loop-Sends topic body (id ∷ ids) 0 h)
