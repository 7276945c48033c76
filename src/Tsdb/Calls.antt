-- ===== src/Tsdb/Calls.antt =====
-- backends/tsdb/writer.go: the calls of the time series library that an appender makes, and newLset.
use frames.Base.{
  ℤ, ℕ, Bool, true, false, List, [], ◌∷◌, ◌++◌, String, Dict, Error, Result, ok, err, panic, str_eq,
  wrap,
}
use frames.Value.{Value}
use frames.Column.Read.{Format}
use frames.Frame.{labels}

-- utils.Label
pub record Label : Type 0 where
  pub name : String
  pub value : String

abbrev pub Labels : Type 0
Labels = List Label

-- Add and AddFast of tsdb.Appender, with the time in milliseconds.
pub data Call : Type 0 where
  add : Labels → (t : ℤ) (v : ℕ) → Call
  add_fast : Labels → (ref : ℕ) (t : ℤ) (v : ℕ) → Call

-- tsdb.Appender, by its answer to a call after those that it has taken (the latest first); Add
-- answers with the reference of the series. Then sort.Sort on labels, Sprintf("%s"), float64(i).
pub record Env : Type 0 where
  pub answer : List Call → Call → Result ℕ
  pub sort : Labels → Labels
  pub show_s : Value → String
  pub to_float : ℤ → ℕ
  pub fmt : Format

-- A part of Add: it calls the library, and fails or gives a value. The state is the calls taken.
abbrev pub Calls : Type 0 → Type 0
Calls A = List Call → Result A × List Call

abbrev pub bind : {A B : Type 0} → Result A × List Call → (A → Calls B) → Result B × List Call
bind (ok a, s) f = f a s
bind (err e, s) f = (err e, s)
bind (panic, s) f = (panic, s)

infixl 5 ◌>>=◌ ◌>>◌
abbrev pub ◌>>=◌ : {A B : Type 0} → Calls A → (A → Calls B) → Calls B
◌>>=◌ m f s = bind (m s) f

abbrev pub ◌>>◌ : {B : Type 0} → Calls (Unit {0}) → Calls B → Calls B
m >> k = m >>= λ _. k

abbrev pub lift : {A : Type 0} → Result A → Calls A
lift r s = (r, s)

abbrev pub pure : {A : Type 0} → A → Calls A
pure a = lift (ok a)

abbrev pub check : Bool → Error → Calls (Unit {0})
check true e = pure tt
check false e = lift (err e)

abbrev taken : String → Result ℕ → Call → Calls ℕ
taken msg (ok ref) c s = (ok ref, c ∷ s)
taken msg (err e) c s = (err (wrap msg e), s)
taken msg panic c s = (panic, s)

abbrev pub call : Env → String → Call → Calls ℕ
call env msg c s = taken msg (env.answer s c) c s

-- metricCtx
pub record Metric : Type 0 where
  pub lset : Labels
  pub ref : ℕ

-- The labels of the frame, in newLset: inside the loop `name` is the label's own name, so this is
-- the value that a label __name__ gets. Also, whether there was one.
unfoldable pub frame_labels : Env → Bool → Dict Value → Result (Labels × Bool)
frame_labels env single [] = ok ([], false)
frame_labels env single ((name, val) ∷ ls) = elim (str_eq name "__name__") [
  | true ↦ elim single [
    | true ↦ elim (frame_labels env single ls) [
      | ok p ↦ ok (record { name = name; value = env.show_s (Value.string name) } ∷ p.0, true)
      | err e ↦ err e
      | panic ↦ panic
    ]
    | false ↦ err Error.bad_label
  ]
  | false ↦ elim (frame_labels env single ls) [
    | ok p ↦ ok (record { name = name; value = env.show_s val } ∷ p.0, p.1)
    | err e ↦ err e
    | panic ↦ panic
  ]
]

-- The labels of the extra indices; `extraIdxVals[i]` panics out of range.
abbrev pub index_labels : List String → List String → Result Labels
index_labels [] vals = ok []
index_labels (n ∷ ns) [] = panic
index_labels (n ∷ ns) (v ∷ vs) = elim (index_labels ns vs) [
  | ok ls ↦ ok (record { name = n; value = v } ∷ ls)
  | err e ↦ err e
  | panic ↦ panic
]

abbrev pub named : String → Labels × Bool → Labels
named name (ls, true) = ls
named name (ls, false) = ls ++ (record { name = "__name__"; value = name } ∷ [])

abbrev pub joined : Env → Labels → Result Labels → Result Labels
joined env ls (ok extra) = ok (env.sort (ls ++ extra))
joined env ls (err e) = err e
joined env ls panic = panic

abbrev pub finished :
    Env → String → List String → List String → Result (Labels × Bool) → Result Labels
finished env name extra vals (ok p) = joined env (named name p) (index_labels extra vals)
finished env name extra vals (err e) = err e
finished env name extra vals panic = panic

-- newLset
unfoldable pub new_lset :
    Env → Dict Value → String → Bool → List String → List String → Result Labels
unfolding frame_labels
new_lset env labels name single extra vals =
    finished env name extra vals (frame_labels env single labels)
