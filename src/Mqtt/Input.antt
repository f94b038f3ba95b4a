-- ===== src/Mqtt/Input.antt =====
-- What the decoder uses of `bufio.Reader`: the input is the list of the bytes that the connection
-- still delivers, and its end is the end of the stream. `readInt` and `readString` of
-- gate/base/mqtt/mqtt.go stand on it.
use mqant.Prelude.{
  ℕ, ◌+◌, ◌-◌, ◌*◌, ◌≡◌, [], ◌∷◌, ◌++◌, Bytes, length, take, drop, replicate, leb, if◌then◌else◌,
  Exec, ok, err, crash, pure, ◌>>=◌, arith, length-append, take-length_append, drop-length_append,
}
use mqant.Mqtt.Pack.{Error, eof, unexpected_eof}

abbrev pub Input : Type 0 → Type 0
Input A = Exec Error Bytes A

-- r.ReadByte()
unfoldable pub read_byte : Input ℕ
read_byte [] = (err eof, [])
read_byte (b ∷ r) = (ok b, r)

-- The error of a short `io.ReadFull`: `io.EOF` if not one byte came.
abbrev short : Bytes → Error
short [] = eof
short (b ∷ r) = unexpected_eof

-- io.ReadFull(r, make([]byte, n))
unfoldable pub read_full : ℕ → Input Bytes
read_full n r = if leb n (length r) then (ok (take n r), drop n r) else (err (short r), [])

-- The same call where the error is ignored: the buffer is what came, and zeros.
unfoldable pub read_lossy : ℕ → Input Bytes
read_lossy n r = (ok (take n r ++ replicate (n - length r) 0), drop n r)

-- binary.BigEndian.Uint16(buf)
unfoldable pub uint16_be : Bytes → Input ℕ
uint16_be (a ∷ b ∷ r) = pure (a * 256 + b)
uint16_be (a ∷ []) = crash
uint16_be [] = crash

unfoldable pub read_int : ℕ → Input ℕ
read_int size = do buf ← read_full size; uint16_be buf

-- Returns the text and its length; `nil` is never returned.
unfoldable pub read_string : Input (Bytes × ℕ)
read_string = do nn ← read_int 2; buf ← read_full nn; pure (buf, nn)

pub read_full-append : (xs r : Bytes) → read_full (length xs) (xs ++ r) ≡ (ok xs, r)
unfolding read_full
read_full-append xs r =
    ground (arith, length-append xs r, take-length_append xs r, drop-length_append xs r)
