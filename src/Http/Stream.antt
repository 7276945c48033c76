-- ===== src/Http/Stream.antt =====
-- http/server.go to http/client.go: the frames that a read sends are the frames that the client gets.
use mathlib.Core.List.{append_assoc, append-nil}
use frames.Base.{
  ℕ, zero, suc, ◌<◌, ◌^◌, ◌≡◌, refl, sym, ap, ◌∙◌, subst, length-map, length-append, List, [], ◌∷◌,
  ◌++◌, map, String, Option, none, some, Dict, All, Error, Result, ok, err, length, arith,
}
use frames.Frame.{Frame, new_frame_from_proto}
use frames.Marshal.{Codec, Writer, decode}
use frames.Marshal.RoundTrip.{framed, decode-encode}
use frames.Sql.{Statement}
use frames.Api
use frames.Api.{ReadRequest, Backend}
use frames.Http.{Message, proto, empty_frame, send_frames, handle_read, Iterator, next, read_all}

-- The codec carries the message: it has an encoding, of less than 2^63 bytes, which it decodes.
abbrev pub Carries : Codec Message → Message → Type 0
Carries codec m =
    (bytes : List ℕ) × (codec.marshal m ≡ ok bytes)
    × (codec.unmarshal bytes ≡ ok m)
    × (length bytes < 2 ^ 63)

abbrev pub bytes_of : (codec : Codec Message) (ms : List Message) → All (Carries codec) ms → List ℕ
bytes_of codec [] h = []
bytes_of codec (m ∷ ms) h = framed h.0.0 ++ bytes_of codec ms h.1

-- A writer that never fails.
abbrev pub free : List ℕ → Writer
free bytes = record { written = bytes; room = none }

pub send_frames-bytes :
    (codec : Codec Message) (show : Error → String) (bytes : List ℕ) (frs : List Frame)
    (h : All (Carries codec) (map proto frs))
    → send_frames codec show (free bytes) frs
      ≡ ok (free (bytes ++ bytes_of codec (map proto frs) h))
unfolding send_frames
send_frames-bytes codec show bytes [] h = ap (λ (b : List ℕ). ok (free b)) (sym (append-nil bytes))
send_frames-bytes codec show bytes (fr ∷ frs) h =
    let (body, m, u, short) = h.0 in
    let (sent, _) = decode-encode codec (proto fr) (free bytes) body [] refl m u short in
    rw sent (
      send_frames-bytes codec show (bytes ++ framed body) frs h.1
      ∙ ap (λ (b : List ℕ). ok (free b))
          (append_assoc bytes (framed body) (bytes_of codec (map proto frs) h.1)))

-- What a client makes of a message.
abbrev pub delivered : List Message → List Frame
delivered [] = []
delivered (m ∷ ms) = new_frame_from_proto m.frame ∷ delivered ms

read_all-end :
    (codec : Codec Message) (fuel : ℕ) (fr : Option Frame)
    → read_all (suc fuel) codec (record { frame = fr; error = none; rest = [] }) ≡ ok ([], none)
unfolding read_all next decode
read_all-end codec fuel fr = refl

pub read_all-bytes :
    (codec : Codec Message) (ms : List Message) (h : All (Carries codec) ms) (fr : Option Frame)
    (fuel : ℕ)
    → length ms < fuel
    → read_all fuel codec (record { frame = fr; error = none; rest = bytes_of codec ms h })
      ≡ ok (delivered ms, none)
unfolding read_all next
read_all-bytes codec ms h fr zero l = elim l [ ]
read_all-bytes codec [] h fr (suc fuel) l = read_all-end codec fuel fr
read_all-bytes codec (m ∷ ms) h fr (suc fuel) l =
    let (body, e, u, short) = h.0 in
    let (_, got) = decode-encode codec m (free []) body (bytes_of codec ms h.1) refl e u short in
    rw got
      (rw (read_all-bytes codec ms h.1 (some (new_frame_from_proto m.frame)) fuel (omega arith)))

bytes_of-snoc :
    (codec : Codec Message) (ms : List Message) (m : Message) (h : All (Carries codec) ms)
    (c : Carries codec m)
    → (k : All (Carries codec) (ms ++ m ∷ [])) × (bytes_of codec (ms ++ m ∷ []) k
        ≡ bytes_of codec ms h ++ framed c.0)
bytes_of-snoc codec [] m h c = ((c, tt), append-nil (framed c.0))
bytes_of-snoc codec (x ∷ ms) m h c =
    let (k, e) = bytes_of-snoc codec ms m h.1 c in
    (
      (h.0, k),
      ap (λ (b : List ℕ). framed h.0.0 ++ b) e
          ∙ sym (append_assoc (framed h.0.0) (bytes_of codec ms h.1) (framed c.0)),
    )

abbrev pub start : List ℕ → Iterator
start bytes = record { frame = none; error = none; rest = bytes }

-- A read that the API answers with frames and no error: the server sends them, and a client that
-- reads the response gets a frame for each, in their order, and no error.
pub read_all-handle_read :
    (codec : Codec Message) (show : Error → String) (backends : Dict Backend)
    (parse : String → Result Statement) (req : ReadRequest) (frs : List Frame)
    → Api.read backends parse req ≡ (ok tt, frs)
    → All (Carries codec) (map proto frs)
    → (w : Writer) × (handle_read codec show backends parse req (free []) ≡ ok w)
      × (read_all (suc (length frs)) codec (start w.written) ≡ ok (delivered (map proto frs), none))
unfolding handle_read
read_all-handle_read codec show backends parse req frs answer h = (
  free (bytes_of codec (map proto frs) h),
  rw answer (rw (send_frames-bytes codec show [] frs h)),
  rw (← length-map proto frs) (read_all-bytes codec (map proto frs) h none _ (omega arith)),
)

-- A read that ends with an error: the server sends the error behind the frames, and the client
-- takes it for one more frame, with no columns, and sees no error.
pub read_all-error_lost :
    (codec : Codec Message) (show : Error → String) (backends : Dict Backend)
    (parse : String → Result Statement) (req : ReadRequest) (frs : List Frame) (e : Error)
    → Api.read backends parse req ≡ (err e, frs)
    → All (Carries codec) (map proto frs)
    → Carries codec (record { frame = empty_frame; error = show e })
    → (w : Writer) × (handle_read codec show backends parse req (free []) ≡ ok w)
      × (read_all (suc (suc (length frs))) codec (start w.written)
          ≡ ok (
            delivered (map proto frs ++ record { frame = empty_frame; error = show e } ∷ []),
            none,
          ))
unfolding handle_read
read_all-error_lost codec show backends parse req frs e answer h c =
    let m : Message = record { frame = empty_frame; error = show e } in
    let (k, joined) = bytes_of-snoc codec (map proto frs) m h c in
    let (sent, _) =
      decode-encode codec m (free (bytes_of codec (map proto frs) h)) c.0 [] refl c.1 c.2 c.3 in
    (
      free (bytes_of codec (map proto frs) h ++ framed c.0),
      rw answer (
          rw (send_frames-bytes codec show [] frs h)
            (ap (λ (p : Result (Unit {0}) × Writer). ok p.1) sent)),
      rw (← joined) (
          subst
            (λ n.
              read_all (suc n) codec (start (bytes_of codec (map proto frs ++ m ∷ []) k))
              ≡ ok (delivered (map proto frs ++ m ∷ []), none))
            (length-append (map proto frs) (m ∷ []) ∙ omega (arith, length-map proto frs))
            (read_all-bytes codec (map proto frs ++ m ∷ []) k none _ (omega arith))),
    )
