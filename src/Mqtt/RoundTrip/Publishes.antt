-- ===== src/Mqtt/RoundTrip/Publishes.antt =====
-- PUBLISH.
use mqant.Prelude.{
  ℕ, ◌+◌, ◌-◌, ◌<◌, ◌≤◌, ◌≡◌, refl, Bytes, [], ◌++◌, length, ok, arith, some, ltb, if◌then◌else◌,
  sym, inl, inr, pure, append_assoc, le→leb, Bool-cases, append-nil, Bool, true, false,
}
use mqant.Mqtt.MsgType
use mqant.Mqtt.Pack.{Pack, Publish}
use mqant.Mqtt.Pack.Variable.{publish}
use mqant.Mqtt.Input.{read_full-append}
use mqant.Mqtt.Output.{
  Writer, IsHealthy, Writes, Writes-bind, uint16_bytes, write_int, write_full, write_string,
  write_full-Writes,
}
use mqant.Mqtt.Read.{read_variable, read_publish}
use mqant.Mqtt.Write.{write_variable, write_publish}
use mqant.Mqtt.RoundTrip.Length.{length_wire, get_remaining_length-eq-length_wire}
use mqant.Mqtt.RoundTrip.Fields.{
  HasHeader, Transmits, received, Transmits-frame, write_int-Writes, write_string-Writes,
  read_int-uint16_bytes, read_string-wire,
}

-- The message id is on the wire at a positive QoS only.
abbrev mid_wire : ℕ → ℕ → Bytes
mid_wire qos mid = if ltb 0 qos then uint16_bytes mid else []

abbrev pub publish_length : ℕ → Bytes → Bytes → ℕ
publish_length qos topic msg = (if ltb 0 qos then 4 else 2) + length topic + length msg

abbrev publish_wire : ℕ → ℕ → Bytes → Bytes → Bytes
publish_wire qos mid topic msg = (uint16_bytes (length topic) ++ topic) ++ (mid_wire qos mid ++ msg)

write_mid-Writes :
    (b : Bool) (mid : ℕ) (w : Writer)
    → IsHealthy w
    → Writes (if b then uint16_bytes mid else []) w ((if b then write_int mid else pure tt) w)
write_mid-Writes true mid w h = write_int-Writes mid w h
write_mid-Writes false mid w h = record {
  done = refl;
  written = sym (append-nil _);
  healthy = h;
  sized = refl;
}

module _ (pack : Pack) (mid : ℕ) (topic msg : Bytes) (typed : pack.msg_type ≡ MsgType.publish)
    (is : pack.variable ≡ publish (record { topic_name = some topic; mid = mid; msg = msg }))
    (small : publish_length pack.qos_level topic msg < 2097152) where
  abbrev len : ℕ
  len = publish_length pack.qos_level topic msg

  write_publish-Writes :
      (w : Writer)
      → IsHealthy w
      → Writes
          (length_wire len ++ publish_wire pack.qos_level mid topic msg)
          w
          (write_variable pack w)
  unfolding write_variable write_publish
  write_publish-Writes w h =
      rw (typed, is, get_remaining_length-eq-length_wire len small)
        (Writes-bind (write_full (length_wire len)) _ (length_wire len) _ w
          (write_full-Writes (length_wire len) w h)
          λ w1 h1.
            Writes-bind (write_string (some topic)) _ (uint16_bytes (length topic) ++ topic) _ w1
              (write_string-Writes topic w1 h1)
              λ w2 h2.
                Writes-bind (if ltb 0 pack.qos_level then write_int mid else pure tt)
                  (write_full msg) (mid_wire pack.qos_level mid) msg w2
                  (write_mid-Writes (ltb 0 pack.qos_level) mid w2 h2) (write_full-Writes msg))

abbrev pub received_publish : ℕ → ℕ → Bytes → Bytes → Publish
received_publish qos mid topic msg = record {
  topic_name = some topic;
  mid = if ltb 0 qos then mid else 0;
  msg = msg;
}

publish_wire_assoc :
    (m t q msg rest : Bytes) → ((m ++ t) ++ (q ++ msg)) ++ rest ≡ m ++ (t ++ (q ++ (msg ++ rest)))
publish_wire_assoc m t q msg rest = simp append_assoc

read_publish_wire :
    (qos mid : ℕ) (topic msg rest : Bytes)
    → 1 ≤ length topic
    → length topic < 65536
    → mid < 65536
    → read_publish (publish_length qos topic msg) qos (publish_wire qos mid topic msg ++ rest)
      ≡ (ok (publish (received_publish qos mid topic msg)), rest)
unfolding read_publish
read_publish_wire qos mid topic msg rest lo hi m = rw publish_wire_assoc (
    rw (read_string-wire topic (mid_wire qos mid ++ (msg ++ rest)) hi, le→leb 1 (length topic) lo)
      (elim (Bool-cases (ltb 0 qos)) [
        | inl e ↦ rw (
          e,
          le→leb 2 (4 + length topic + length msg - length topic - 2) (omega arith),
          read_int-uint16_bytes mid (msg ++ rest) m,
          with_mid,
          read_full-append msg rest,
        )
        | inr e ↦ rw (e, without_mid, read_full-append msg rest)
      ]))
  where
    with_mid : 4 + length topic + length msg - length topic - 2 - 2 ≡ length msg
    with_mid = omega arith

    without_mid : 2 + length topic + length msg - length topic - 2 ≡ length msg
    without_mid = omega arith

-- A PUBLISH comes through with its topic, its payload and its QoS, and with its message id at a
-- positive QoS; at QoS 0 the id is not sent.
pub publish-Transmits :
    (pack : Pack) (mid : ℕ) (topic msg : Bytes) (max : ℕ) (w : Writer)
    → HasHeader pack
    → pack.msg_type ≡ MsgType.publish
    → pack.variable ≡ publish (record { topic_name = some topic; mid = mid; msg = msg })
    → 1 ≤ length topic
    → length topic < 65536
    → mid < 65536
    → publish_length pack.qos_level topic msg < 2097152
    → publish_length pack.qos_level topic msg ≤ max
    → IsHealthy w
    → Transmits max pack
        (received pack
          (publish_length pack.qos_level topic msg)
          (publish (received_publish pack.qos_level mid topic msg)))
        w
publish-Transmits pack mid topic msg max w header t e lo hi m small fits h =
    Transmits-frame pack max (publish_length pack.qos_level topic msg)
      (publish_wire pack.qos_level mid topic msg)
      (publish (received_publish pack.qos_level mid topic msg)) w header small fits h
      (write_publish-Writes pack mid topic msg t e small)
      (λ rest.
        unfold read_variable in rw t (read_publish_wire pack.qos_level mid topic msg rest lo hi m))
