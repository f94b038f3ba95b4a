-- ===== src/Mqtt/RoundTrip/Acks.antt =====
-- The packets with a fixed length: acknowledgements and heart beats.
use mqant.Prelude.{ℕ, ◌<◌, ◌≤◌, ◌≡◌, Bytes, [], ◌∷◌, ◌++◌, ok, arith, ◌>>◌}
use mqant.Mqtt.MsgType
use mqant.Mqtt.Pack.{UnSuback, Connack, Pack, Puback, Suback}
use mqant.Mqtt.Pack.Variable.{unsuback, connack, puback, suback}
use mqant.Mqtt.Output.{
  write_full, write_full-Writes, Writer, IsHealthy, Writes, Writes-bind, uint16_bytes, write_int,
  write_byte, write-Writes,
}
use mqant.Mqtt.Read.{read_variable}
use mqant.Mqtt.Input.{read_byte}
use mqant.Mqtt.Write.{
  write_variable, write_puback, write_suback, write_unsuback, write_connack, write_length_byte,
}
use mqant.Mqtt.RoundTrip.Fields.{
  HasHeader, Transmits, received, Transmits-frame, write_length_byte-Writes, write_int-Writes,
  read_int-uint16_bytes,
}

-- PUBACK, PUBREC, PUBREL and PUBCOMP
abbrev pub IsAckType : ℕ → Type 0
IsAckType typ = (MsgType.puback ≤ typ) × (typ ≤ MsgType.pubcomp)

pub write_ack-Writes :
    (pack : Pack) (ack : Puback) (w : Writer)
    → IsAckType pack.msg_type
    → pack.variable ≡ puback ack
    → IsHealthy w
    → Writes (2 ∷ uint16_bytes ack.mid) w (write_variable pack w)
unfolding write_variable write_puback
write_ack-Writes pack ack w t e h = ground (
  arith,
  Writes-bind (write_length_byte 2) (write_int ack.mid) (2 ∷ []) (uint16_bytes ack.mid) w
      (write_length_byte-Writes 2 w (omega arith) h) (write_int-Writes ack.mid),
)

read_ack :
    (typ qos : ℕ) (ack : Puback) (rest : Bytes)
    → IsAckType typ
    → ack.mid < 65536
    → read_variable typ qos 2 (uint16_bytes ack.mid ++ rest) ≡ (ok (puback ack), rest)
unfolding read_variable
read_ack typ qos ack rest t m = ground (arith, read_int-uint16_bytes ack.mid rest m)

-- Each of the four acknowledgements of a publication comes through with its message id.
pub ack-Transmits :
    (pack : Pack) (ack : Puback) (max : ℕ) (w : Writer)
    → HasHeader pack
    → IsAckType pack.msg_type
    → pack.variable ≡ puback ack
    → ack.mid < 65536
    → 2 ≤ max
    → IsHealthy w
    → Transmits max pack (received pack 2 (puback ack)) w
ack-Transmits pack ack max w header t e m fits h =
    Transmits-frame pack max 2 (uint16_bytes ack.mid) (puback ack) w header (omega arith) fits h
      (λ w'. write_ack-Writes pack ack w' t e)
      (λ rest. read_ack pack.msg_type pack.qos_level ack rest t m)

pub write_suback-Writes :
    (pack : Pack) (ack : Suback) (w : Writer)
    → pack.msg_type ≡ MsgType.suback
    → pack.variable ≡ suback ack
    → IsHealthy w
    → Writes (3 ∷ (uint16_bytes ack.mid ++ ack.qos ∷ [])) w (write_variable pack w)
unfolding write_variable write_suback
write_suback-Writes pack ack w t e h =
    rw (t, e)
      (Writes-bind (write_length_byte 3) (write_int ack.mid >> write_byte ack.qos) (3 ∷ [])
        (uint16_bytes ack.mid ++ ack.qos ∷ []) w (write_length_byte-Writes 3 w (omega arith) h)
        λ w' h'.
          Writes-bind (write_int ack.mid) (write_byte ack.qos) (uint16_bytes ack.mid) (ack.qos ∷ [])
            w' (write_int-Writes ack.mid w' h') (write-Writes (ack.qos ∷ [])))

read_suback_wire :
    (qos : ℕ) (ack : Suback) (rest : Bytes)
    → ack.mid < 65536
    → read_variable MsgType.suback qos 3 ((uint16_bytes ack.mid ++ ack.qos ∷ []) ++ rest)
      ≡ (ok (suback ack), rest)
unfolding read_variable read_byte
read_suback_wire qos ack rest m = rw (read_int-uint16_bytes ack.mid (ack.qos ∷ rest) m)

-- A SUBACK comes through with its message id and its QoS byte.
pub suback-Transmits :
    (pack : Pack) (ack : Suback) (max : ℕ) (w : Writer)
    → HasHeader pack
    → pack.msg_type ≡ MsgType.suback
    → pack.variable ≡ suback ack
    → ack.mid < 65536
    → 3 ≤ max
    → IsHealthy w
    → Transmits max pack (received pack 3 (suback ack)) w
suback-Transmits pack ack max w header t e m fits h =
    Transmits-frame pack max 3 (uint16_bytes ack.mid ++ ack.qos ∷ []) (suback ack) w header
      (omega arith) fits h (λ w'. write_suback-Writes pack ack w' t e)
      (λ rest. rw t (read_suback_wire pack.qos_level ack rest m))

pub write_unsuback-Writes :
    (pack : Pack) (ack : UnSuback) (w : Writer)
    → pack.msg_type ≡ MsgType.unsuback
    → pack.variable ≡ unsuback ack
    → IsHealthy w
    → Writes (2 ∷ uint16_bytes ack.mid) w (write_variable pack w)
unfolding write_variable write_unsuback
write_unsuback-Writes pack ack w t e h =
    rw (t, e)
      (Writes-bind (write_length_byte 2) (write_int ack.mid) (2 ∷ []) (uint16_bytes ack.mid) w
        (write_length_byte-Writes 2 w (omega arith) h) (write_int-Writes ack.mid))

read_unsuback_wire :
    (qos : ℕ) (ack : UnSuback) (rest : Bytes)
    → ack.mid < 65536
    → read_variable MsgType.unsuback qos 2 (uint16_bytes ack.mid ++ rest)
      ≡ (ok (unsuback ack), rest)
unfolding read_variable
read_unsuback_wire qos ack rest m = rw (read_int-uint16_bytes ack.mid rest m)

-- An UNSUBACK comes through with its message id.
pub unsuback-Transmits :
    (pack : Pack) (ack : UnSuback) (max : ℕ) (w : Writer)
    → HasHeader pack
    → pack.msg_type ≡ MsgType.unsuback
    → pack.variable ≡ unsuback ack
    → ack.mid < 65536
    → 2 ≤ max
    → IsHealthy w
    → Transmits max pack (received pack 2 (unsuback ack)) w
unsuback-Transmits pack ack max w header t e m fits h =
    Transmits-frame pack max 2 (uint16_bytes ack.mid) (unsuback ack) w header (omega arith) fits h
      (λ w'. write_unsuback-Writes pack ack w' t e)
      (λ rest. rw t (read_unsuback_wire pack.qos_level ack rest m))

pub write_connack-Writes :
    (pack : Pack) (ack : Connack) (w : Writer)
    → pack.msg_type ≡ MsgType.connack
    → pack.variable ≡ connack ack
    → IsHealthy w
    → Writes (2 ∷ ack.reserved ∷ ack.return_code ∷ []) w (write_variable pack w)
unfolding write_variable write_connack
write_connack-Writes pack ack w t e h =
    rw (t, e)
      (Writes-bind (write_length_byte 2) (write_full (ack.reserved ∷ ack.return_code ∷ [])) (2 ∷ [])
        (ack.reserved ∷ ack.return_code ∷ []) w (write_length_byte-Writes 2 w (omega arith) h)
        (write_full-Writes (ack.reserved ∷ ack.return_code ∷ [])))

pub write_pingresp-Writes :
    (pack : Pack) (w : Writer)
    → pack.msg_type ≡ MsgType.pingresp
    → IsHealthy w
    → Writes (0 ∷ []) w (write_variable pack w)
unfolding write_variable
write_pingresp-Writes pack w t h = rw t (write-Writes (0 ∷ []) w h)
