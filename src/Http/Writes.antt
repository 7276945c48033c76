-- ===== src/Http/Writes.antt =====
-- http/client.go to http/server.go: what a client writes is what the server's API is given.
use frames.Base.{ℕ, ◌<◌, ◌^◌, ◌≡◌, List, Option, none, some, ok, length}
use frames.Frame.{Frame, new_frame_from_proto}
use frames.Marshal.{Codec}
use frames.Api
use frames.Http.{InitialWrite}
use frames.Http.Client.{Client}

-- The codec carries the first message of a write.
abbrev pub CarriesFirst : Codec InitialWrite → InitialWrite → Type 0
CarriesFirst codec m =
    (bytes : List ℕ) × (codec.marshal m ≡ ok bytes)
    × (codec.unmarshal bytes ≡ ok m)
    × (length bytes < 2 ^ 63)

-- What the server makes of the immediate data.
abbrev pub received : Option Frame → Option Frame
received none = none
received (some fr) = some (new_frame_from_proto fr.msg)
