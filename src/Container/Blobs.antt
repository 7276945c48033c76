-- ===== src/Container/Blobs.antt =====
-- v3ioutils/container.go: the array that AsInt64Array reads from a blob.
use mathlib.Core.List.{append_assoc}
use frames.Base.{
  ℕ, zero, suc, ◌≤◌, ◌<◌, ◌^◌, ◌≡◌, true, refl, ap, subst, List, [], ◌∷◌, ◌++◌, All, drop, length,
  length-append, leb, arith,
}
use frames.Marshal.{little_endian}
use frames.Marshal.RoundTrip.{
  length-little_endian, from_little_endian-little_endian, take_eight, drop_eight, drop_all,
}
use frames.Container.{read_words, as_int64_array}

-- The words of an array as a blob has them.
abbrev pub word_bytes : List ℕ → List ℕ
word_bytes [] = []
word_bytes (w ∷ ws) = little_endian 8 w ++ word_bytes ws

length-word_bytes : (ws : List ℕ) → length ws ≤ length (word_bytes ws)
length-word_bytes [] = omega arith
length-word_bytes (w ∷ ws) = omega (
  arith,
  length-append (little_endian 8 w) (word_bytes ws),
  length-little_endian 8 w,
  length-word_bytes ws,
)

read_words-bytes :
    (ws rest : List ℕ) (fuel : ℕ)
    → All (λ w. w < 2 ^ 64) ws
    → length rest < 8
    → length ws ≤ fuel
    → read_words fuel (word_bytes ws ++ rest) ≡ ws
unfolding read_words
read_words-bytes [] rest zero h s f = refl
read_words-bytes [] rest (suc fuel) h s f = ground arith
read_words-bytes (w ∷ ws) rest zero h s f = absurd (omega arith)
read_words-bytes (w ∷ ws) rest (suc fuel) h s f =
    let bytes = little_endian 8 w in
    let behind = word_bytes ws ++ rest in
    let eight : length bytes ≡ 8 = length-little_endian 8 w in
    let enough : leb 8 (length (bytes ++ behind)) ≡ true =
      ground (arith, length-append bytes behind, eight) in
    rw (append_assoc bytes (word_bytes ws) rest) (
      rw enough (
        rw
          (
            take_eight bytes behind eight,
            drop_eight bytes behind eight,
            from_little_endian-little_endian 8 w (omega (arith, h.0)),
          )
          (ap (λ l. w ∷ l) (read_words-bytes ws rest fuel h.1 s (omega arith)))))

-- A blob of a header of sixteen bytes, of words below 2^64, each in eight bytes with the least
-- significant first, and of less than eight bytes behind them is read as these words.
pub as_int64_array-bytes :
    (header rest ws : List ℕ)
    → length header ≡ 16
    → length rest < 8
    → All (λ w. w < 2 ^ 64) ws
    → as_int64_array (header ++ (word_bytes ws ++ rest)) ≡ ws
unfolding as_int64_array
as_int64_array-bytes header rest ws e s h =
    let bytes = word_bytes ws ++ rest in
    let behind : drop 16 (header ++ bytes) ≡ bytes =
      subst (λ n. drop n (header ++ bytes) ≡ bytes) e (drop_all header bytes) in
    rw behind (
      read_words-bytes ws rest (length (header ++ bytes)) h s (
        omega (
          arith,
          length-append header bytes,
          length-append (word_bytes ws) rest,
          length-word_bytes ws,
        )))
