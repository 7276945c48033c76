-- ===== src/Value/Laws.antt =====
-- pb/methods.go: the decoding of times, and the round trip of label values through protobuf.
use frames.Base.{
  ℤ, pos, negsuc, ◌≡◌, int_laws, [], ◌∷◌, arith, ok, Dict, wrapf, wrapf-eq-ok, map, >>=-eq-ok,
}
use frames.Value.{
  Value, int64, int, int32, int16, int8, time, nil, PbValue, ns_to_time, go_value, set_value,
  as_go_map, from_go_map,
}

-- Splitting the nanoseconds into seconds and a rest, as time.Unix wants them, loses nothing, for
-- negative times (before the epoch) too.
pub ns_to_time_lem : (ns : ℤ) → ns_to_time ns ≡ ns
unfolding ns_to_time
ns_to_time_lem (pos n) = omega int_laws
ns_to_time_lem (negsuc n) = omega int_laws

-- The Go value that a value is after a round trip: every integer type becomes int64.
abbrev pub widen : Value → Value
widen (int v) = int64 v
widen (int32 v) = int64 v
widen (int16 v) = int64 v
widen (int8 v) = int64 v
widen v = v

pub go_value-set_value : (v : Value) (p : PbValue) → set_value v ≡ ok p → go_value p ≡ ok (widen v)
unfolding set_value go_value
go_value-set_value nil p h = ground arith
go_value-set_value (time t) p h = ground (arith, ns_to_time_lem t)
go_value-set_value _ p h = ground arith

-- The labels of a frame survive the trip through protobuf, but for the width of integers.
as_go_map-from_go_map :
    (m : Dict Value) (p : Dict PbValue)
    → from_go_map m ≡ ok p
    → as_go_map p ≡ map (λ (k, v). (k, widen v)) m
unfolding from_go_map as_go_map
as_go_map-from_go_map [] p h = ground arith
as_go_map-from_go_map ((k, v) ∷ m) p h =
    let (x, e, h') = >>=-eq-ok (wrapf "can't encode" (set_value v)) _ h in
    let (out, e', h'') = >>=-eq-ok (from_go_map m) _ h' in
    ground (
      arith,
      go_value-set_value v x (wrapf-eq-ok "can't encode" (set_value v) e),
      as_go_map-from_go_map m out e',
    )
