-- ===== src/Grpc/Laws.antt =====
-- grpc/server.go and grpc/client.go: the frames of a read, and an appender whose stream has failed.
use mathlib.Core.List.{append_assoc, append-nil}
use frames.Base.{
  ◌≡◌, refl, sym, ap, ◌∙◌, true, false, List, [], ◌∷◌, ◌++◌, map, String, Dict, Error, Result, ok,
  err, arith, stream_closed,
}
use frames.Frame.{Frame, PbFrame}
use frames.Sql.{Statement}
use frames.Api
use frames.Api.{ReadRequest, Backend}
use frames.Grpc.{Send, send_frames, read, Appender, add, add_all, wait_for_complete}

send_frames-all :
    (send : Send) (sent : List PbFrame) (answer : Result (Unit {0})) (frs : List Frame)
    → ((old : List PbFrame) (m : PbFrame) → send old m ≡ ok tt)
    → send_frames send sent answer frs ≡ (answer, sent ++ map (λ (fr : Frame). fr.msg) frs)
unfolding send_frames
send_frames-all send sent answer [] h =
    ap (λ (ms : List PbFrame). (answer, ms)) (sym (append-nil sent))
send_frames-all send sent answer (fr ∷ frs) h =
    let rest = map (λ (f : Frame). f.msg) frs in
    let tail : send_frames send (sent ++ fr.msg ∷ []) answer frs ≡ (answer, sent ++ fr.msg ∷ rest) =
      send_frames-all send (sent ++ fr.msg ∷ []) answer frs h
      ∙ ap (λ (ms : List PbFrame). (answer, ms)) (append_assoc sent (fr.msg ∷ []) rest) in
    ground (arith, h sent fr.msg)

-- On a stream that takes every message, a read sends the frames that the API gives, each once and in
-- order, and ends as the API does: unlike the HTTP server's, its error reaches the client.
pub read-sends :
    (send : Send) (backends : Dict Backend) (parse : String → Result Statement) (req : ReadRequest)
    → ((old : List PbFrame) (m : PbFrame) → send old m ≡ ok tt)
    → read send backends parse req ≡ (
      (Api.read backends parse req).0,
      map (λ (fr : Frame). fr.msg) (Api.read backends parse req).1,
    )
unfolding read
read-sends send backends parse req h =
    let answer = Api.read backends parse req in send_frames-all send [] answer.0 answer.1 h

add_all-closed :
    (send : Send) (frs : List Frame) (a : Appender) → a.closed ≡ true → add_all send frs a ≡ a
unfolding add_all
add_all-closed send [] a c = refl
add_all-closed send (fr ∷ frs) a c =
    ap (λ (b : Appender). add_all send frs b) (add_closed send fr a c) ∙ add_all-closed send frs a c
  where
    add_closed : (s : Send) (f : Frame) (b : Appender) → b.closed ≡ true → (add s f b).1 ≡ b
    add_closed s f b e = ground arith

-- Once an Add has failed on the stream nothing more is sent, whatever is added later, and
-- WaitForComplete fails.
add_all-failed :
    (send : Send) (close : List PbFrame → Result (Unit {0})) (fr : Frame) (frs : List Frame)
    (a : Appender) (e : Error)
    → a.closed ≡ false
    → send a.sent fr.msg ≡ err e
    → ((add_all send (fr ∷ frs) a).sent ≡ a.sent)
      × (wait_for_complete close (add_all send (fr ∷ frs) a) ≡ err stream_closed)
unfolding add_all wait_for_complete
add_all-failed send close fr frs a e c s =
    let b = record a { closed = true } in
    let step : (add send fr a).1 ≡ b = ground arith in
    let rest : add_all send (fr ∷ frs) a ≡ b =
      ap (λ (x : Appender). add_all send frs x) step ∙ add_all-closed send frs b refl in
    (ap (λ (x : Appender). x.sent) rest, ap (λ (x : Appender). wait_for_complete close x) rest)
