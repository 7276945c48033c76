-- ===== src/Stream/Laws.antt =====
-- backends/stream: what Create answers, which records a frame takes, and a write row by row.
use frames.Base.{ℤ, pos, ◌≡◌, List, [], ◌∷◌, String, Dict, lookup, Error, ok, err, with_slash}
use frames.Value.{Value}
use frames.Stream.{Env, Record, int_attr, create}

-- Create reports success whatever the container answers to CreateStream: once the attributes are
-- valid and there is a container, an error of that call is only logged.
create_error_lost :
    (env : Env) (table : String) (attrs : Dict Value) (shards hours : ℤ) (e : Error)
    → int_attr "shards" (pos 1) (lookup "shards" attrs) ≡ ok shards
    → int_attr "retention_hours" (pos 24) (lookup "retention_hours" attrs) ≡ ok hours
    → env.new_container ≡ ok tt
    → env.create_stream (with_slash table) shards hours ≡ err e
    → create env table attrs ≡ ok tt
unfolding create
create_error_lost env table attrs shards hours e s r c f = rw (s, r) (rw (c, f))

abbrev pub last_sequence : ℤ → List Record → ℤ
last_sequence l [] = l
last_sequence l (r ∷ rs) = last_sequence r.sequence rs
