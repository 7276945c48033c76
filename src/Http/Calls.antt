-- ===== src/Http/Calls.antt =====
-- http/client.go to http/server.go: what a client's create, delete and exec come to in the server's API.
use frames.Base.{◌≡◌, true, [], String, Error, Result, ok, err, panic, join}
use frames.Api
use frames.Api.{TableRequest}
use frames.Http.Routes.{Server, handler}
use frames.Http.Client.{Client, Post}

-- A POST of the client reaches the server: HTTP carries the path and the body.
abbrev pub Reaches : Post → Client → Server → Type 0
Reaches post c s =
    (path body : String)
    → post (join c.url path) body
      ≡ handler s (record { path = path; is_post = true; args = []; body = body })

-- The server's JSON decoder reads what the client's encoder wrote of the request.
abbrev pub Agree : (TableRequest → Result String) → Server → TableRequest → Type 0
Agree marshal s q = (body : String) × (marshal q ≡ ok body) × (s.env.decode body ≡ ok q)

-- A client sees that the call failed, but not why.
abbrev pub seen : Result (Unit {0}) → Result (Unit {0})
seen (ok _) = ok tt
seen (err e) = err (Error.bad_status 500)
seen panic = panic
