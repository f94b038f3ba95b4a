-- ===== src/Mqtt/Read/Cases.antt =====
-- How `ReadPack` ends, and the body that goes with each message type.
use mqant.Prelude.{
  length, ℕ, zero, suc, ◌+◌, ◌-◌, ◌≤◌, ◌<◌, ◌≡◌, ◌≢◌, ◌⊎◌, inl, inr, Bool-cases, List, Bytes, [],
  ◌∷◌, ◌++◌, Result, ok, err, panic, pure, ◌>>=◌, arith, ltb, leb, leb→le, ltb→lt, if◌then◌else◌,
  ◌==◌, ==_iff, shr, low_bits, some,
}
use mqant.Mqtt.MsgType
use mqant.Mqtt.Pack.{Pack, Variable, Topics, Connect, Error, nil}
use mqant.Mqtt.Pack.Variable.{
  connect, connack, publish, puback, subscribe, suback, unsubscribe, unsuback,
}
use mqant.Mqtt.Input.{Input, read_byte, read_full, read_lossy}
use mqant.Mqtt.Read.{
  read_rest, read_pack, read_length, read_variable, read_connect, read_will, read_uname,
  read_upassword, read_publish, read_puback, read_subscribe, read_suback, read_unsubscribe,
  read_unsuback, read_unknown, read_topics, next_topic, next_untopic, or_stop,
}
use mqant.Mqtt.Read.Safe.{
  Post-le, length-drop_le, Post, Safe, Any, Safe-bind, Safe-pure, Safe-guard, read_byte-Safe,
  read_full-Safe, read_length-Safe, read_number, safe_rules,
}

-- The message types that have the body `v`.
abbrev pub Matches : ℕ → Variable → Type 0
Matches typ nil = (typ ≡ 0) ⊎ (typ ≡ MsgType.connack) ⊎ (MsgType.pingreq ≤ typ)
Matches typ (connect v) = typ ≡ MsgType.connect
Matches typ (connack v) = ⊥
Matches typ (publish v) = typ ≡ MsgType.publish
Matches typ (puback v) = (MsgType.puback ≤ typ) × (typ ≤ MsgType.pubcomp)
Matches typ (subscribe v) = typ ≡ MsgType.subscribe
Matches typ (suback v) = typ ≡ MsgType.suback
Matches typ (unsubscribe v) = typ ≡ MsgType.unsubscribe
Matches typ (unsuback v) = typ ≡ MsgType.unsuback

read_will-Safe : (len used : ℕ) (conn : Connect) → Safe Any (read_will len used conn)
unfolding read_will
read_will-Safe len used conn = search safe_rules depth 12

read_uname-Safe : (len used : ℕ) (conn : Connect) → Safe Any (read_uname len used conn)
unfolding read_uname
read_uname-Safe len used conn = search safe_rules depth 12

read_upassword-Safe : (len used : ℕ) (conn : Connect) → Safe Any (read_upassword len used conn)
unfolding read_upassword
read_upassword-Safe len used conn = search safe_rules depth 12

read_connect-Safe : (len : ℕ) → Safe (Matches MsgType.connect) (read_connect len)
unfolding read_connect
read_connect-Safe len = search (safe_rules, after_will, after_uname, after_upassword) depth 20
  where
    after_will :
        {A : Type 0} {P : A → Type 0} (used : ℕ) (conn : Connect) (f : Connect × ℕ → Input A)
        → ((a : Connect × ℕ) → Safe P (f a))
        → Safe P (read_will len used conn >>= f)
    after_will used conn f h =
        Safe-bind (read_will len used conn) f (read_will-Safe len used conn) λ a _. h a

    after_uname :
        {A : Type 0} {P : A → Type 0} (used : ℕ) (conn : Connect) (f : Connect × ℕ → Input A)
        → ((a : Connect × ℕ) → Safe P (f a))
        → Safe P (read_uname len used conn >>= f)
    after_uname used conn f h =
        Safe-bind (read_uname len used conn) f (read_uname-Safe len used conn) λ a _. h a

    after_upassword :
        {A : Type 0} {P : A → Type 0} (used : ℕ) (conn : Connect) (f : Connect → Input A)
        → ((a : Connect) → Safe P (f a))
        → Safe P (read_upassword len used conn >>= f)
    after_upassword used conn f h =
        Safe-bind (read_upassword len used conn) f (read_upassword-Safe len used conn) λ a _. h a

read_publish-Safe : (len qos : ℕ) → Safe (Matches MsgType.publish) (read_publish len qos)
unfolding read_publish
read_publish-Safe len qos = search (safe_rules, after_any, after_full) depth 20
  where
    after_any :
        {A B : Type 0} {P : A → Type 0} (m : Input B) (f : B → Input A)
        → Safe (Any {A = B}) m
        → ((b : B) → Safe P (f b))
        → Safe P (m >>= f)
    after_any m f hm h = Safe-bind m f hm λ b _. h b

    after_full :
        {A : Type 0} {P : A → Type 0} (n : ℕ) (f : Bytes → Input A)
        → ((b : Bytes) → Safe P (f b))
        → Safe P (read_full n >>= f)
    after_full n f h = Safe-bind (read_full n) f (read_full-Safe n) λ b _. h b

or_stop-Safe :
    (n : ℕ) (x : Result Error (ℕ × Topics) × Bytes) (f : ℕ × Topics → Input (List Topics))
    (topics : List Topics)
    → Post (λ t. 1 ≤ t.0) n x
    → ((t : ℕ × Topics) → 1 ≤ t.0 → Safe Any (f t))
    → Post Any n (or_stop x f topics)
or_stop-Safe n (ok t, r) f topics h k = Post-le Any (length r) n (f t r) h.1 ((k t h.0).at r)
or_stop-Safe n (err e, r) f topics h k = (tt, h)
or_stop-Safe n (panic, r) f topics h k = absurd h

-- Enough fuel: every topic takes something off `vlen`.
read_topics-Safe :
    (next : Input (ℕ × Topics)) (fuel vlen : ℕ) (topics : List Topics)
    → Safe (λ t. 1 ≤ t.0) next
    → vlen < fuel
    → Safe Any (read_topics next fuel vlen topics)
unfolding read_topics
read_topics-Safe next zero vlen topics h lt = elim lt [ ]
read_topics-Safe next (suc fuel) vlen topics h lt = record {
  at = λ r. elim (Bool-cases (ltb 3 vlen)) [
    | inl more ↦ rw more (
        or_stop-Safe (length r) (next r) _ topics (h.at r) λ t ht.
          read_topics-Safe next fuel (vlen - t.0) (topics ++ t.1 ∷ []) h
            (omega (arith, ltb→lt 3 vlen more)))
    | inr done ↦ rw done (tt, omega arith)
  ];
}

read_lossy-Safe : (n : ℕ) → Safe Any (read_lossy n)
unfolding read_lossy
read_lossy-Safe n = record { at = λ r. (tt, length-drop_le n r) }

next_topic-Safe : Safe (λ t. 1 ≤ t.0) next_topic
next_topic-Safe = read_number _ λ n. Safe-bind (read_lossy n) _ (read_lossy-Safe n) λ name _.
    Safe-bind read_byte (λ qos. pure (2 + n + 1, record { name = some name; qos = qos }))
      read_byte-Safe
      λ qos _. Safe-pure (2 + n + 1, record { name = some name; qos = qos }) (omega arith)

next_untopic-Safe : Safe (λ t. 1 ≤ t.0) next_untopic
next_untopic-Safe =
    read_number _
      λ n. Safe-bind (read_lossy n) _ (read_lossy-Safe n) λ name _. Safe-pure _ (omega arith)

after_topics :
    {P : Variable → Type 0} (next : Input (ℕ × Topics)) (len : ℕ) (f : List Topics → Input Variable)
    → Safe (λ t. 1 ≤ t.0) next
    → ((tops : List Topics) → Safe P (f tops))
    → Safe P (read_topics next (suc len) len [] >>= f)
after_topics next len f hn h =
    Safe-bind (read_topics next (suc len) len []) f
      (read_topics-Safe next (suc len) len [] hn (omega arith)) λ tops _. h tops

read_subscribe-Safe : (len : ℕ) → Safe (Matches MsgType.subscribe) (read_subscribe len)
unfolding read_subscribe
read_subscribe-Safe len = search (safe_rules, after_topics, next_topic-Safe) depth 10

read_unsubscribe-Safe : (len : ℕ) → Safe (Matches MsgType.unsubscribe) (read_unsubscribe len)
unfolding read_unsubscribe
read_unsubscribe-Safe len = search (safe_rules, after_topics, next_untopic-Safe) depth 10

read_puback-Safe :
    (typ len : ℕ)
    → (MsgType.puback ≤ typ) × (typ ≤ MsgType.pubcomp)
    → Safe (Matches typ) (read_puback typ len)
unfolding read_puback
read_puback-Safe typ len h = search safe_rules depth 10

read_suback-Safe : (typ len : ℕ) → typ ≡ MsgType.suback → Safe (Matches typ) (read_suback typ len)
unfolding read_suback
read_suback-Safe typ len e = search safe_rules depth 10

read_unsuback-Safe :
    (typ len : ℕ) → typ ≡ MsgType.unsuback → Safe (Matches typ) (read_unsuback typ len)
unfolding read_unsuback
read_unsuback-Safe typ len e = search safe_rules depth 10

read_unknown-Safe :
    (typ len : ℕ)
    → (typ ≡ 0) ⊎ (typ ≡ MsgType.connack) ⊎ (MsgType.pingreq ≤ typ)
    → Safe (Matches typ) (read_unknown len)
unfolding read_unknown
read_unknown-Safe typ len h =
    Safe-bind (read_full len) _ (read_full-Safe len) λ b _. Safe-pure nil h

-- One case of the switch over the message type.
on_type :
    (typ k : ℕ) (m n : Input Variable)
    → (typ ≡ k → Safe (Matches typ) m)
    → (typ ≢ k → Safe (Matches typ) n)
    → Safe (Matches typ) (if typ == k then m else n)
on_type typ k m n hm hn = elim (Bool-cases (typ == k)) [
  | inl e ↦ rw e (hm ((==_iff typ k).0 e))
  | inr e ↦ rw e (hn (ground arith))
]

read_variable-Safe : (typ qos len : ℕ) → Safe (Matches typ) (read_variable typ qos len)
unfolding read_variable
read_variable-Safe typ qos len =
    on_type typ MsgType.connect _ _ (λ e. rw e (read_connect-Safe len))
      λ n1.
        on_type typ MsgType.publish _ _ (λ e. rw e (read_publish-Safe len qos))
          λ n3.
            on_type typ MsgType.puback _ _ (λ e. read_puback-Safe typ len (omega arith))
              λ n4.
                on_type typ MsgType.pubrel _ _ (λ e. read_puback-Safe typ len (omega arith))
                  λ n6.
                    on_type typ MsgType.pubrec _ _ (λ e. read_puback-Safe typ len (omega arith))
                      λ n5.
                        on_type typ MsgType.pubcomp _ _
                          (λ e. read_puback-Safe typ len (omega arith))
                          λ n7.
                            on_type typ MsgType.subscribe _ _ (λ e. rw e (read_subscribe-Safe len))
                              λ n8.
                                on_type typ MsgType.suback _ _ (λ e. read_suback-Safe typ len e)
                                  λ n9.
                                    on_type typ MsgType.unsubscribe _ _
                                      (λ e. rw e (read_unsubscribe-Safe len))
                                      λ n10.
                                        on_type typ MsgType.unsuback _ _
                                          (λ e. read_unsuback-Safe typ len e)
                                          λ n11.
                                            on_type typ MsgType.pingreq _ _
                                              (λ e. Safe-pure nil (omega arith))
                                              λ n12.
                                                on_type typ MsgType.disconnect _ _
                                                  (λ e. Safe-pure nil (omega arith))
                                                  λ n14. read_unknown-Safe typ len (omega arith)

-- What the client may rely on of a packet that was read.
abbrev pub IsRead : ℕ → Pack → Type 0
IsRead max pack = Matches pack.msg_type pack.variable × (pack.length ≤ max)

read_rest-Safe : (max fixed : ℕ) → Safe (IsRead max) (read_rest max fixed)
unfolding read_rest
read_rest-Safe max fixed = Safe-bind read_length _ read_length-Safe λ len _.
    Safe-guard (leb len max) _ _ λ fits.
      Safe-bind (read_variable (shr fixed 4) (shr (low_bits fixed 3) 1) len) _
        (read_variable-Safe (shr fixed 4) (shr (low_bits fixed 3) 1) len)
        λ v h. Safe-pure _ (h, leb→le len max fits)

-- On every input `ReadPack` returns a packet or an error and never panics. A packet is not longer
-- than the bound and has the body that its type stands for. A call on a connection that has not
-- ended takes one byte at least.
pub read_pack-IsRead : (max : ℕ) (r : Bytes) → Post (IsRead max) (length r - 1) (read_pack max r)
unfolding read_pack
read_pack-IsRead max [] = omega arith
read_pack-IsRead max (b ∷ r) =
    Post-le (IsRead max) (length r) (suc (length r) - 1) (read_rest max b r) (omega arith)
      ((read_rest-Safe max b).at r)
