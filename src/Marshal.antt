-- ===== src/Marshal.antt =====
-- marshal.go: messages on a byte stream, each behind its length as a little-endian int64.
pub mod RoundTrip
use frames.Base.{
  Bool, true, false, ℤ, pos, negsuc, ℕ, zero, suc, ◌+◌, ◌-◌, ◌*◌, ◌/◌, ◌%◌, ◌^◌, List, [], ◌∷◌,
  ◌++◌, Option, none, some, length, take, drop, Error, Result, ok, err, panic, ◌>>=◌, wrapf, leb,
  ltb, ◌==◌, if◌then◌else◌,
}

-- The protobuf codec of one message type.
pub record Codec (M : Type 0) : Type 0 where
  pub marshal : M → Result (List ℕ)
  pub unmarshal : List ℕ → Result M

-- binary.Write and binary.Read of k bytes, the least significant first.
unfoldable pub little_endian : ℕ → ℕ → List ℕ
little_endian zero n = []
little_endian (suc k) n = (n % 256) ∷ little_endian k (n / 256)

unfoldable pub from_little_endian : List ℕ → ℕ
from_little_endian [] = 0
from_little_endian (b ∷ bs) = b + 256 * from_little_endian bs

-- The int64 of a 64-bit pattern.
abbrev pub signed : ℕ → ℤ
signed n = if ltb n 0x8000000000000000 then pos n else negsuc (0xFFFFFFFFFFFFFFFF - n)

-- An io.Writer: what it has taken, and how many bytes more it takes before it fails (`none` for
-- one that never does).
pub record Writer : Type 0 where
  pub written : List ℕ
  pub room : Option ℕ

abbrev pub fits : Option ℕ → ℕ → ℕ
fits none n = n
fits (some r) n = if leb n r then n else r

abbrev left_over : Option ℕ → ℕ → Option ℕ
left_over none n = none
left_over (some r) n = some (r - n)

-- w.Write(data): the count of bytes that it took, with an error if that is not all.
unfoldable pub write : Writer → List ℕ → Result ℕ × Writer
write w bytes =
    let n = fits w.room (length bytes) in
    let w' : Writer = record { written = w.written ++ take n bytes; room = left_over w.room n } in
    if n == length bytes then (ok n, w') else (err (Error.short_write n (length bytes)), w')

abbrev check_written : Result ℕ → ℕ → Result (Unit {0})
check_written (ok n) size = if n == size then ok tt else err (Error.short_write n size)
check_written (err e) size = err (Error.wrap "can't write message body" e)
check_written panic size = panic

abbrev write_body : List ℕ → Result ℕ × Writer → Result (Unit {0}) × Writer
write_body bytes (ok n, w) = let (r, w') = write w bytes in (check_written r (length bytes), w')
write_body bytes (err e, w) = (err (Error.wrap "can't write size header" e), w)
write_body bytes (panic, w) = (panic, w)

abbrev encode_bytes : Writer → Result (List ℕ) → Result (Unit {0}) × Writer
encode_bytes w (ok bytes) = write_body bytes (write w (little_endian 8 (length bytes)))
encode_bytes w (err e) = (err (Error.wrap "can't encode with message" e), w)
encode_bytes w panic = (panic, w)

-- Encode
unfoldable pub encode : {M : Type 0} → Codec M → Writer → M → Result (Unit {0}) × Writer
encode codec w msg = encode_bytes w (codec.marshal msg)

-- binary.Read of an int64: EOF on an empty stream, an error on a shorter one.
abbrev pub read_header : List ℕ → Result ℤ × List ℕ
read_header bytes = elim (leb 8 (length bytes)) [
  | true ↦ (ok (signed (from_little_endian (take 8 bytes))), drop 8 bytes)
  | false ↦ elim bytes [
    | [] ↦ (err Error.eof, [])
    | b ∷ bs ↦ (err (Error.wrap "can't read header" Error.bad_header), [])
  ]
]

-- io.CopyN: nothing is read for a size that is not positive; a short stream is an error.
abbrev pub copy_n : ℤ → List ℕ → Result (List ℕ) × List ℕ
copy_n (negsuc n) bytes = (err (Error.short_read 0 0), bytes)
copy_n (pos n) bytes =
    if leb n (length bytes)
    then (ok (take n bytes), drop n bytes)
    else (err (Error.wrap "can't read message body" Error.eof), [])

abbrev decode_body : {M : Type 0} → Codec M → Result (List ℕ) × List ℕ → Result M × List ℕ
decode_body codec (ok body, rest) = (wrapf "can't decode message body" (codec.unmarshal body), rest)
decode_body codec (err e, rest) = (err e, rest)
decode_body codec (panic, rest) = (panic, rest)

abbrev decode_sized : {M : Type 0} → Codec M → Result ℤ × List ℕ → Result M × List ℕ
decode_sized codec (ok size, rest) = decode_body codec (copy_n size rest)
decode_sized codec (err e, rest) = (err e, rest)
decode_sized codec (panic, rest) = (panic, rest)

-- Decode, on the bytes left in the stream.
unfoldable pub decode : {M : Type 0} → Codec M → List ℕ → Result M × List ℕ
unfolding from_little_endian
decode codec bytes = decode_sized codec (read_header bytes)
