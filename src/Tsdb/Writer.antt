-- ===== src/Tsdb/Writer.antt =====
-- backends/tsdb/writer.go: what an appender sends to the time series library, for a frame with one
-- index, and for one with more, which become labels.
use frames.Base.{
  ℤ, pos, negsuc, pred, ℕ, zero, suc, Bool, true, false, List, [], ◌∷◌, String, Option, none, some,
  Dict, Error, Result, ok, err, panic, length, map, replicate, at, quot, ltb_ℤ, eqb_ℤ, str_eq, not,
  ◌&&◌, if◌then◌else◌, ◌==◌,
}
use frames.Value.{Value}
use frames.Column.{ColImpl, DType}
use frames.Column.Read.{Format, ints, floats, strings, times}
use frames.Frame.{Frame, names, labels, column, frame_len}
use frames.Tsdb.Calls.{
  Labels, add, add_fast, Env, Calls, ◌>>=◌, ◌>>◌, lift, pure, check, call, Metric, new_lset,
}

-- `t.UnixNano() / 1000 / 1000`
unfoldable pub to_ms : ℤ → ℤ
to_ms t = quot (quot t 1000) 1000

-- The last index of type time, if any.
abbrev pub time_index : ℕ → Option ℕ → List ColImpl → Option ℕ
time_index i last [] = last
time_index i last (c ∷ cs) =
    time_index (suc i) (elim c.msg.dtype [ DType.time ↦ some i | _ ↦ last ]) cs

-- `xs[i]` for i from r, over the rounds left, converted.
unfoldable pub convert {ℓ κ} :
    {A : Type ℓ} {B : Type κ} → (A → B) → List A → (rounds r : ℕ) → Result (List B)
convert f xs zero r = ok []
convert f xs (suc n) r = elim (at xs (pos r)) [
  | ok x ↦ elim (convert f xs n (suc r)) [ ok ys ↦ ok (f x ∷ ys) | err e ↦ err e | panic ↦ panic ]
  | err e ↦ err e
  | panic ↦ panic
]

-- `v, _ := …`: nil on an error.
abbrev or_nil {ℓ} : {A : Type ℓ} → Result (List A) → Result (List A)
or_nil (ok xs) = ok xs
or_nil (err e) = ok []
or_nil panic = panic

-- The values of one column as floats.
abbrev pub values_by : Env → ℕ → ColImpl → DType → Calls (List ℕ)
values_by env n c DType.float = lift (or_nil (floats c))
values_by env n c DType.integer = do xs ← lift (or_nil (ints c)); lift (convert env.to_float xs n 0)
values_by env n c _ = lift (err Error.wrong_dtype)

unfoldable pub all_values : Env → Frame → ℕ → List String → Calls (List (List ℕ))
unfolding convert
all_values env fr n [] = pure []
all_values env fr n (name ∷ ns) = do
  c ← lift (column fr name)
  v ← values_by env n c c.msg.dtype
  vs ← all_values env fr n ns
  pure (v ∷ vs)

-- newLset for each column.
unfoldable pub all_lsets :
    Env → Dict Value → Bool → List String → List String → List String → Calls (List Labels)
unfolding new_lset
all_lsets env labels single extra vals [] = pure []
all_lsets env labels single extra vals (name ∷ ns) = do
  l ← lift (new_lset env labels name single extra vals)
  ls ← all_lsets env labels single extra vals ns
  pure (l ∷ ls)

-- Add for each metric, with its value in row r.
unfoldable pub add_row : Env → ℤ → ℕ → List Labels → List (List ℕ) → Calls (List Metric)
add_row env t r [] vs = pure []
add_row env t r (l ∷ ls) [] = lift panic
add_row env t r (l ∷ ls) (v ∷ vs) = do
  x ← lift (at v (pos r))
  ref ← call env "failed to Add" (add l t x)
  ms ← add_row env t r ls vs
  pure (record { lset = l; ref = ref } ∷ ms)

-- AddFast for each metric; a metric that was never set is a nil pointer.
unfoldable pub fast_row : Env → ℤ → ℕ → List (Option Metric) → List (List ℕ) → Calls (Unit {0})
fast_row env t r [] vs = pure tt
fast_row env t r (none ∷ ms) vs = lift panic
fast_row env t r (some m ∷ ms) [] = lift panic
fast_row env t r (some m ∷ ms) (v ∷ vs) = do
  x ← lift (at v (pos r))
  ref ← call env "failed to AddFast" (add_fast m.lset m.ref t x)
  fast_row env t r ms vs

-- The rows behind the first, of a frame with one index.
unfoldable pub fast_rows :
    Env → List ℤ → List (Option Metric) → List (List ℕ) → (rounds r : ℕ) → Calls (Unit {0})
unfolding fast_row
fast_rows env ts ms vs zero r = pure tt
fast_rows env ts ms vs (suc n) r = do
  t ← lift (at ts (pos r))
  fast_row env t r ms vs
  fast_rows env ts ms vs n (suc r)

-- The loop over the index columns: is each at its last value? Also the values of this row.
unfoldable pub same_index : ℕ → List (List String) → List String → Result (Bool × List String)
same_index r [] last = ok (true, last)
same_index r (c ∷ cs) [] = panic
same_index r (c ∷ cs) (l ∷ ls) = elim (at c (pos r)) [
  | ok v ↦ elim (same_index r cs ls) [
    | ok p ↦ ok (str_eq v l && p.0, v ∷ p.1)
    | err e ↦ err e
    | panic ↦ panic
  ]
  | err e ↦ err e
  | panic ↦ panic
]

-- What a frame with several indices is written with.
pub record Multi : Type 0 where
  pub labels : Dict Value
  pub names : List String
  pub index_names : List String
  pub index_cols : List (List String)
  pub times : List ℤ
  pub values : List (List ℕ)

abbrev multi_row :
    Env → Multi → ℕ → ℤ → Bool × List String → List (Option Metric) → Calls (List (Option Metric))
multi_row env f r t (false, vals) ms = do
  ls ← all_lsets env f.labels (length f.names == 1) f.index_names vals f.names
  ms' ← add_row env t r ls f.values
  pure (map some ms')
multi_row env f r t (true, vals) ms = do fast_row env t r ms f.values; pure ms

-- The rows of a frame with several indices, from row r on; `last` is lastIndexes.
unfoldable pub multi_rows :
    Env → Multi → (rounds r : ℕ) → List String → List (Option Metric) → Calls (Unit {0})
unfolding all_lsets add_row fast_row same_index
multi_rows env f zero r last ms = pure tt
multi_rows env f (suc n) r last ms = do
  p ← lift (same_index r f.index_cols last)
  t ← lift (at f.times (pos r))
  ms' ← multi_row env f r t p ms
  multi_rows env f n (suc r) p.1 ms'

-- The times of the index, in milliseconds; `times[i]` for each row.
abbrev millis : ColImpl → ℕ → Calls (List ℤ)
millis c n = do ts ← lift (times c).0; lift (convert to_ms ts n 0)

abbrev last_of : ℤ → List ℤ → ℤ
last_of t [] = t
last_of t (u ∷ us) = last_of u us

-- `len(tarray) > 1 && tarray[0] > tarray[len(tarray)-1]`
abbrev pub out_of_order : List ℤ → Bool
out_of_order [] = false
out_of_order (t ∷ ts) = ltb_ℤ (last_of t ts) t

abbrev single_index : Env → Frame → List String → ℕ → List ℤ → List (List ℕ) → Calls (Unit {0})
single_index env fr ns n ts vs = do
  check (not (out_of_order ts)) Error.out_of_order
  ls ← all_lsets env (labels fr).0 (length ns == 1) [] [] ns
  t ← lift (at ts (pos 0))
  ms ← add_row env t 0 ls vs
  fast_rows env ts (map some ms) vs (pred n) 1

abbrev pub other_indices : ℕ → ℕ → List ColImpl → List ColImpl
other_indices i t [] = []
other_indices i t (c ∷ cs) =
    if i == t then other_indices (suc i) t cs else c ∷ other_indices (suc i) t cs

unfoldable pub index_strings : Format → List ColImpl → Result (List (List String))
index_strings fmt [] = ok []
index_strings fmt (c ∷ cs) = elim (strings fmt c) [
  | ok s ↦ elim (index_strings fmt cs) [ ok ss ↦ ok (s ∷ ss) | err e ↦ err e | panic ↦ panic ]
  | err e ↦ err e
  | panic ↦ panic
]

abbrev multi_index : Env → Frame → List String → ℕ → ℕ → List ℤ → List (List ℕ) → Calls (Unit {0})
multi_index env fr ns t n ts vs = do
  let cols = other_indices 0 t fr.indices
  strs ← lift (index_strings env.fmt cols)
  let f : Multi = record {
    labels = (labels fr).0;
    names = ns;
    index_names = map (λ c. c.msg.name) cols;
    index_cols = strs;
    times = ts;
    values = vs;
  }
  multi_rows env f n 0 (replicate (length cols) "") (replicate (length ns) none)

abbrev write_all :
    Env → Frame → List String → ℕ → ℕ → List ℤ → List (List ℕ) → Bool → Calls (Unit {0})
write_all env fr ns t n ts vs true = single_index env fr ns n ts vs
write_all env fr ns t n ts vs false = multi_index env fr ns t n ts vs

abbrev with_time : Env → Frame → List String → ℕ → List ColImpl → Option ℕ → Calls (Unit {0})
with_time env fr ns n [] t = lift (err Error.no_indices)
with_time env fr ns n (c ∷ cs) none = lift (err Error.no_time_index)
with_time env fr ns n (c ∷ cs) (some t) = do
  icol ← lift (at (c ∷ cs) (pos t))
  ts ← millis icol n
  vs ← all_values env fr n ns
  write_all env fr ns t n ts vs (length (c ∷ cs) == 1)

-- `make([]int64, frame.Len())`
abbrev size_of : ℤ → Result ℕ
size_of (pos n) = ok n
size_of (negsuc n) = panic

abbrev with_names : Env → Frame → List String → Calls (Unit {0})
with_names env fr [] = lift (err Error.empty_frame)
with_names env fr (name ∷ ns) = do
  n ← lift (size_of (frame_len fr))
  with_time env fr (name ∷ ns) n fr.indices (time_index 0 none fr.indices)

-- Add, of a frame with at least one row; one with none changes nothing.
unfoldable pub add_frame : Env → Frame → Calls (Unit {0})
unfolding all_values all_lsets add_row fast_rows multi_rows index_strings
add_frame env fr = elim (eqb_ℤ (frame_len fr) (pos 0)) [
  | true ↦ pure tt
  | false ↦ do ns ← lift (names fr).0; with_names env fr ns
]
