-- ===== src/Marshal/RoundTrip.antt =====
-- marshal.go: what Encode writes, Decode reads back.
use frames.Base.{
  ℕ, zero, suc, ◌*◌, ◌/◌, ◌^◌, ◌<◌, ◌≡◌, refl, subst, lt→ltb, ap, pos, List, [], ◌∷◌, ◌++◌, none,
  length, take, drop, ok, arith, length-append,
}
use mathlib.Core.List.{append_assoc}
use native.Mathlib.Nat.{pow-suc}
use frames.Marshal.{
  Codec, Writer, little_endian, from_little_endian, write, encode, decode, signed, read_header,
  copy_n,
}

pub from_little_endian-little_endian :
    (k n : ℕ) → n < 256 ^ k → from_little_endian (little_endian k n) ≡ n
unfolding little_endian from_little_endian
from_little_endian-little_endian zero n h = omega arith
from_little_endian-little_endian (suc k) n h =
    let h' : n < 256 ^ k * 256 = rw (pow-suc 256 k) at h in
    omega (arith, from_little_endian-little_endian k (n / 256) (omega arith))

pub length-little_endian : (k n : ℕ) → length (little_endian k n) ≡ k
unfolding little_endian
length-little_endian zero n = refl
length-little_endian (suc k) n = ap suc (length-little_endian k (n / 256))

module _ {A : Type 0} where
  take_all : (xs ys : List A) → take (length xs) (xs ++ ys) ≡ xs
  take_all [] ys = refl
  take_all (x ∷ xs) ys = ap (λ zs. x ∷ zs) (take_all xs ys)

  pub drop_all : (xs ys : List A) → drop (length xs) (xs ++ ys) ≡ ys
  drop_all [] ys = refl
  drop_all (x ∷ xs) ys = drop_all xs ys

  take-length : (xs : List A) → take (length xs) xs ≡ xs
  take-length [] = refl
  take-length (x ∷ xs) = ap (λ zs. x ∷ zs) (take-length xs)

-- The bytes of a message on the stream.
abbrev pub framed : List ℕ → List ℕ
framed bytes = little_endian 8 (length bytes) ++ bytes

write_free :
    (w : Writer) (bytes : List ℕ)
    → w.room ≡ none
    → write w bytes ≡ (ok (length bytes), record { written = w.written ++ bytes; room = none })
unfolding write
write_free w bytes free = ground (arith, take-length bytes)

pub take_eight : (h xs : List ℕ) → length h ≡ 8 → take 8 (h ++ xs) ≡ h
take_eight h xs e = subst (λ n. take n (h ++ xs) ≡ h) e (take_all h xs)

pub drop_eight : (h xs : List ℕ) → length h ≡ 8 → drop 8 (h ++ xs) ≡ xs
drop_eight h xs e = subst (λ n. drop n (h ++ xs) ≡ xs) e (drop_all h xs)

read_header_lem :
    (h xs : List ℕ)
    → length h ≡ 8
    → read_header (h ++ xs) ≡ (ok (signed (from_little_endian h)), xs)
read_header_lem h xs e = ground (arith, length-append h xs, take_eight h xs e, drop_eight h xs e)

copy_n_lem : (bytes rest : List ℕ) → copy_n (pos (length bytes)) (bytes ++ rest) ≡ (ok bytes, rest)
copy_n_lem bytes rest =
    ground (arith, length-append bytes rest, take_all bytes rest, drop_all bytes rest)

-- Reading a framed message leaves exactly what stands behind it.
pub decode-framed :
    {M : Type 0} (codec : Codec M) (m : M) (bytes rest : List ℕ)
    → length bytes < 2 ^ 63
    → codec.unmarshal bytes ≡ ok m
    → decode codec (framed bytes ++ rest) ≡ (ok m, rest)
unfolding decode
decode-framed codec m bytes rest short h =
    let size = from_little_endian-little_endian 8 (length bytes) (omega arith) in
    let header =
      read_header_lem (little_endian 8 (length bytes)) (bytes ++ rest)
        (length-little_endian 8 (length bytes)) in
    rw (append_assoc (little_endian 8 (length bytes)) bytes rest) (
      rw (header, size) (rw (lt→ltb (length bytes) (2 ^ 63) short) (rw (copy_n_lem bytes rest, h))))

-- A message whose encoding is shorter than 2^63 bytes, encoded to a writer that does not fail, is
-- framed behind what was written before; decoding the frame, whatever bytes follow it,
-- gives the message, if the codec decodes its own encoding of it, and leaves the bytes that follow.
pub decode-encode :
    {M : Type 0} (codec : Codec M) (m : M) (w : Writer) (bytes rest : List ℕ)
    → w.room ≡ none
    → codec.marshal m ≡ ok bytes
    → codec.unmarshal bytes ≡ ok m
    → length bytes < 2 ^ 63
    → (encode codec w m ≡ (ok tt, record { written = w.written ++ framed bytes; room = none }))
      × (decode codec (framed bytes ++ rest) ≡ (ok m, rest))
unfolding encode
decode-encode codec m w bytes rest free sent back short =
    let header = little_endian 8 (length bytes) in
    let after : Writer = record { written = w.written ++ header; room = none } in
    (
      rw (sent, write_free w header free)
          (rw (write_free after bytes refl) (ground (arith, append_assoc w.written header bytes))),
      decode-framed codec m bytes rest short back,
    )
