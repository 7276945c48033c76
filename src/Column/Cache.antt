-- ===== src/Column/Cache.antt =====
-- The cache of decoded times, and the typed accessors against the readers at an index.
use frames.Base.{
  ℤ, pos, ◌<ℤ◌, ◌+ℤ◌, ℕ, ◌<◌, ◌≡◌, refl, sym, ◌∙◌, Bool, List, none, some, arith, ok, panic, length,
  get_elem?, get_elem?-lt, get_elem?-le,
}
use frames.Value.{Value}
use frames.Column.{slice, label, DType, ColImpl, len}
use frames.Column.Read.{bools, bool_at, time_at}
use frames.Column.Edit.{append}
use frames.Column.Utils.{bool_at_util}
use frames.Column.Invariant.{IsValid}
use frames.Column.Appending.{append_slice_msg, append_slice_case, append_by_lem}

-- The one value of a label column.
label_one : {A : Type 0} (xs : List A) → length xs ≡ 1 → (a : A) × (get_elem? xs 0 ≡ some a)
label_one xs e = get_elem?-lt xs 0 (omega arith)

-- Bools does not repeat the value of a label column, so the typed accessor of a Boolean label
-- column panics at every row but the first, where BoolAt answers.
bool_at_util-label :
    (c : ColImpl) (i : ℕ)
    → IsValid c
    → c.msg.dtype ≡ DType.boolean
    → c.msg.kind ≡ label
    → 0 < i
    → pos i <ℤ len c
    → (bool_at_util c (pos i) ≡ panic) × (b : Bool) × (bool_at c (pos i) ≡ ok b)
unfolding bool_at_util bools bool_at
bool_at_util-label c i v e l first b =
    let one : length c.msg.bools ≡ 1 = ground arith in
    let (x, p) = label_one c.msg.bools one in
    (ground (arith, get_elem?-le c.msg.bools i), x, ground arith)

-- Append does not drop the cache: once the times of a slice column have been decoded, the row that
-- an append adds is in bounds, and reading it panics.
time_at-append_cached :
    (c d : ColImpl) (x : Value) (ts : List ℤ)
    → c.msg.kind ≡ slice
    → c.msg.dtype ≡ DType.time
    → c.times ≡ some ts
    → pos (length ts) ≡ len c
    → append c x ≡ ok d
    → (len d ≡ len c +ℤ pos 1) × (time_at d (len c) ≡ panic)
unfolding time_at ◌+ℤ◌
time_at-append_cached c d x ts k t cached full h =
    let (m, e, made) = append_slice_msg c d x (sym (append_slice_case c x k) ∙ h) in
    let grown = append_by_lem c.msg m none x c.msg.dtype refl k e in
    (ground (arith, grown), ground (arith, grown, get_elem?-le ts (length ts)))
