-- ===== src/Mqtt/RoundTrip/Topics.antt =====
-- SUBSCRIBE and UNSUBSCRIBE: the loops over the topics.
use mqant.Prelude.{
  ℕ, zero, suc, ◌+◌, ◌-◌, ◌<◌, ◌≤◌, ◌≡◌, List, Bytes, [], ◌∷◌, ◌++◌, length, map, ok, arith, some,
  All, ◌∙◌, append_assoc, append-nil, length-append, lt→ltb, le→ltb, drop-length_append,
  take-length_append,
}
use mqant.Mqtt.MsgType
use mqant.Mqtt.Pack.{Pack, Topics}
use mqant.Mqtt.Pack.Variable.{subscribe, unsubscribe}
use mqant.Mqtt.Input.{Input, read_lossy, read_byte}
use mqant.Mqtt.Output.{uint16_bytes}
use mqant.Mqtt.Read.{
  read_pack, read_variable, read_topics, next_topic, next_untopic, read_subscribe, read_unsubscribe,
}
use mqant.Mqtt.RoundTrip.Fields.{HasHeader, read_int-uint16_bytes, frame, received, read_pack-frame}

-- A topic as a client means it: its name and its QoS.
abbrev pub Filter : Type 0
Filter = Bytes × ℕ

abbrev pub topic_of : Filter → Topics
topic_of (name, qos) = record { name = some name; qos = qos }

abbrev pub untopic_of : Bytes → Topics
untopic_of name = record { name = some name; qos = 0 }

abbrev pub wires : {A : Type 0} → (A → Bytes) → List A → Bytes
wires wire [] = []
wires wire (a ∷ as') = wire a ++ wires wire as'

module _ {A : Type 0} (next : Input (ℕ × Topics)) (wire : A → Bytes) (top : A → Topics)
    (IsGood : A → Type 0) (residue : ℕ) (short : residue ≤ 3)
    (step : (a : A) (rest : Bytes)
      → IsGood a
      → (next (wire a ++ rest) ≡ (ok (length (wire a), top a), rest))
        × (3 < residue + length (wire a))) where
  -- The loop reads exactly the topics that it is given, if what is left of `vlen` behind the last
  -- of them is at most 3.
  read_topics-wires :
      (tops : List A) (fuel vlen : ℕ) (acc : List Topics) (rest : Bytes)
      → vlen ≡ residue + length (wires wire tops)
      → vlen < fuel
      → All IsGood tops
      → read_topics next fuel vlen acc (wires wire tops ++ rest) ≡ (ok (acc ++ map top tops), rest)
  unfolding read_topics
  read_topics-wires tops zero vlen acc rest e f g = elim f [ ]
  read_topics-wires [] (suc fuel) vlen acc rest e f g = rw (le→ltb 3 vlen (omega arith), append-nil)
  read_topics-wires (a ∷ tops) (suc fuel) vlen acc rest e f (g, gs) =
      let one = step a (wires wire tops ++ rest) g in
      let n : ℕ = length (wire a) in
      let sum : length (wire a ++ wires wire tops) ≡ length (wire a) + length (wires wire tops) =
        length-append (wire a) (wires wire tops) in
      rw (append_assoc (wire a) (wires wire tops) rest, lt→ltb 3 vlen (omega arith), one.0)
        (read_topics-wires tops fuel (vlen - length (wire a)) (acc ++ top a ∷ []) rest (omega arith)
            (omega arith) gs
          ∙ rw (append_assoc acc (top a ∷ []) (map top tops)))

read_lossy-append : (xs r : Bytes) → read_lossy (length xs) (xs ++ r) ≡ (ok xs, r)
unfolding read_lossy
read_lossy-append xs r =
    let none_left : length xs - length (xs ++ r) ≡ 0 = omega (arith, length-append xs r) in
    rw (none_left, take-length_append xs r, drop-length_append xs r, append-nil)

abbrev pub topic_wire : Filter → Bytes
topic_wire (name, qos) = uint16_bytes (length name) ++ (name ++ qos ∷ [])

abbrev pub untopic_wire : Bytes → Bytes
untopic_wire name = uint16_bytes (length name) ++ name

next_topic-wire :
    (f : Filter) (rest : Bytes)
    → length f.0 < 65536
    → next_topic (topic_wire f ++ rest) ≡ (ok (length (topic_wire f), topic_of f), rest)
unfolding read_byte
next_topic-wire (name, qos) rest h =
    let size : 2 + length name + 1 ≡ suc (suc (length (name ++ qos ∷ []))) =
      omega (arith, length-append name (qos ∷ [])) in
    rw (
      append_assoc name (qos ∷ []) rest,
      read_int-uint16_bytes (length name) (name ++ (qos ∷ rest)) h,
      read_lossy-append name (qos ∷ rest),
      size,
    )

next_untopic-wire :
    (name rest : Bytes)
    → length name < 65536
    → next_untopic (untopic_wire name ++ rest)
      ≡ (ok (length (untopic_wire name), untopic_of name), rest)
next_untopic-wire name rest h =
    let size : 2 + length name ≡ suc (suc (length name)) = omega arith in
    rw (read_int-uint16_bytes (length name) (name ++ rest) h, read_lossy-append name rest, size)

-- All names of `fs` fit their length field.
abbrev pub FitFilters : List Filter → Type 0
FitFilters = All (λ f. length f.0 < 65536)

abbrev pub FitNames : List Bytes → Type 0
FitNames = All (λ name. length name < 65536)

-- The body of a SUBSCRIBE or UNSUBSCRIBE of MQTT 3.1: the message id and the topics. The length of
-- a packet counts both.
abbrev pub subscribe_body : ℕ → List Filter → Bytes
subscribe_body mid fs = uint16_bytes mid ++ wires topic_wire fs

abbrev pub unsubscribe_body : ℕ → List Bytes → Bytes
unsubscribe_body mid names = uint16_bytes mid ++ wires untopic_wire names

-- A SUBSCRIBE whose message id and topic lengths fit 16 bits and whose body is shorter than 128 ^ 3
-- bytes, and not longer than the bound on packets, is read with its message id and all its topics,
-- in order, and the bytes behind it stay in the input.
pub read_pack-subscribe :
    (pack : Pack) (mid max : ℕ) (fs : List Filter) (rest : Bytes)
    → HasHeader pack
    → pack.msg_type ≡ MsgType.subscribe
    → mid < 65536
    → FitFilters fs
    → length (subscribe_body mid fs) < 2097152
    → length (subscribe_body mid fs) ≤ max
    → read_pack max (frame pack (length (subscribe_body mid fs)) (subscribe_body mid fs) ++ rest)
      ≡ (
        ok (
            received pack
              (length (subscribe_body mid fs))
              (subscribe (record { mid = mid; topics = map topic_of fs }))),
        rest,
      )
read_pack-subscribe pack mid max fs rest header t m good small fits =
    read_pack-frame pack max _ (subscribe_body mid fs) rest _ header small fits (
      unfold read_variable read_subscribe in
      rw (
        t,
        read_int-uint16_bytes mid (wires topic_wire fs ++ rest) m,
        read_topics-wires next_topic topic_wire topic_of (λ f. length f.0 < 65536) 2 (omega arith)
            (λ f r h. (next_topic-wire f r h, omega arith)) fs
            (suc (length (subscribe_body mid fs))) (length (subscribe_body mid fs)) [] rest
            (omega arith) (omega arith) good,
      ))

-- An UNSUBSCRIBE whose message id and topic lengths fit 16 bits and whose body is shorter than
-- 128 ^ 3 bytes, and not longer than the bound on packets, is read with its message id and all its
-- names, in order, and the bytes behind it stay in the input.
pub read_pack-unsubscribe :
    (pack : Pack) (mid max : ℕ) (names : List Bytes) (rest : Bytes)
    → HasHeader pack
    → pack.msg_type ≡ MsgType.unsubscribe
    → mid < 65536
    → FitNames names
    → length (unsubscribe_body mid names) < 2097152
    → length (unsubscribe_body mid names) ≤ max
    → read_pack max
        (frame pack (length (unsubscribe_body mid names)) (unsubscribe_body mid names) ++ rest)
      ≡ (
        ok (
            received pack
              (length (unsubscribe_body mid names))
              (unsubscribe (record { mid = mid; topics = map untopic_of names }))),
        rest,
      )
read_pack-unsubscribe pack mid max names rest header t m good small fits =
    read_pack-frame pack max _ (unsubscribe_body mid names) rest _ header small fits (
      unfold read_variable read_unsubscribe in
      rw (
        t,
        read_int-uint16_bytes mid (wires untopic_wire names ++ rest) m,
        read_topics-wires next_untopic untopic_wire untopic_of (λ n. length n < 65536) 2
            (omega arith) (λ n r h. (next_untopic-wire n r h, omega arith)) names
            (suc (length (unsubscribe_body mid names))) (length (unsubscribe_body mid names)) []
            rest (omega arith) (omega arith) good,
      ))
