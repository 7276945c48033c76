-- ===== src/Grpc/Writes.antt =====
-- grpc/client.go to grpc/server.go: what a client writes is what the server's API is given.
use frames.Base.{List, map, Option, none, some, ok}
use frames.Frame.{Frame, PbFrame, new_frame_from_proto}
use frames.Api
use frames.Grpc
use frames.Grpc.{Send, Message}
use frames.Grpc.Client.{Client}

abbrev pub messages : List Frame → List PbFrame
messages frs = map (λ (fr : Frame). fr.msg) frs

-- A stream that takes every message.
abbrev pub taking : Send
taking old m = ok tt

abbrev pub received : Option Frame → Option Frame
received none = none
received (some fr) = some (new_frame_from_proto fr.msg)
