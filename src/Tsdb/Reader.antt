-- ===== src/Tsdb/Reader.antt =====
-- backends/tsdb/reader.go: the frame that the iterator makes of one series.
use frames.Base.{
  ℤ, pos, ◌+ℤ◌, ◌*ℤ◌, ℕ, Bool, true, false, List, [], ◌∷◌, map, String, Option, none, some, Dict,
  insert, Error, Result, ok, err, ◌>>=◌, ◌>>◌, length, quot, rem, str_eq, if◌then◌else◌,
}
use frames.Value.{Value}
use frames.Column.{ColImpl}
use frames.Column.Edit.{Data, new_slice_column, new_label_column}
use frames.Frame.{Frame, new_frame}
use frames.Tsdb.Calls.{Label}

-- A series of the library: its labels, its samples (milliseconds and a float), and the error with
-- which its iterator ends, if it does.
pub record Series : Type 0 where
  pub labels : List Label
  pub samples : List (ℤ × ℕ)
  pub error : Option Error

-- time.Unix(t/1000, (t%1000)*1000), in nanoseconds since the epoch
unfoldable pub sample_time : ℤ → ℤ
sample_time t = quot t 1000 *ℤ pos 1000000000 +ℤ rem t 1000 *ℤ pos 1000

abbrev pub label_name : String → String
label_name name = if str_eq name "__name__" then "metric_name" else name

-- The loop over the labels: a column for each, and the labels of the frame.
unfoldable pub label_columns : ℕ → List Label → Dict Value → Result (List ColImpl × Dict Value)
label_columns n [] labels = ok ([], labels)
label_columns n (l ∷ ls) labels = do
  icol ← new_label_column (label_name l.name) (Value.string l.value) (pos n)
  (cols, labels') ← label_columns n ls (insert (label_name l.name) (Value.string l.value) labels)
  ok (icol ∷ cols, labels')

abbrev iteration : Option Error → Result (Unit {0})
iteration none = ok tt
iteration (some e) = err e

abbrev pub assemble : Bool → ColImpl → ColImpl → List ColImpl × Dict Value → Result Frame
assemble true times values (cols, labels) = new_frame (values ∷ []) (times ∷ cols) (some labels)
assemble false times values (cols, labels) = new_frame (values ∷ cols) (times ∷ []) (some labels)

-- Next, on a series
unfoldable pub series_frame : Bool → Series → Result Frame
unfolding label_columns
series_frame multi_index s = do
  iteration s.error
  times ← new_slice_column "Date" (Data.times (map (λ x. sample_time x.0) s.samples))
  values ← new_slice_column "values" (Data.floats (map (λ x. x.1) s.samples))
  rest ← label_columns (length s.samples) s.labels []
  assemble multi_index times values rest
