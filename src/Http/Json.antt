-- ===== src/Http/Json.antt =====
-- http/json.go: the JSON form of a frame; http/client.go: how a client's write ends.
use frames.Base.{
  ℤ, ℕ, ◌≡◌, refl, Bool, List, [], ◌∷◌, map, String, Error, Result, ok, err, panic, ◌>>=◌, wrapf,
  ◌==◌, if◌then◌else◌,
}
use frames.Value.{unix_nano}
use frames.Column.{ColImpl, DType}
use frames.Column.Read.{Format}
use frames.Column.Read as Read
use frames.Frame.{Frame, names, column}

-- JSONColumn, by the dynamic type of its data; a dtype that the switch does not name leaves nil.
pub data JsonData : Type 0 where
  bools : List Bool → JsonData
  floats : List ℕ → JsonData
  ints times : List ℤ → JsonData
  strings : List String → JsonData
  nil : JsonData

pub record JsonColumn : Type 0 where
  pub name : String
  pub values : JsonData

-- JSONFrame
pub record JsonFrame : Type 0 where
  pub columns : List JsonColumn
  pub indices : List JsonColumn

abbrev data_by : Format → ColImpl → DType → Result JsonData
data_by fmt c DType.boolean = do xs ← Read.bools c; ok (JsonData.bools xs)
data_by fmt c DType.float = do xs ← Read.floats c; ok (JsonData.floats xs)
data_by fmt c DType.integer = do xs ← Read.ints c; ok (JsonData.ints xs)
data_by fmt c DType.string = do xs ← Read.strings fmt c; ok (JsonData.strings xs)
data_by fmt c DType.time = do ts ← (Read.times c).0; ok (JsonData.times (map unix_nano ts))
data_by fmt c (DType.other n) = ok JsonData.nil

-- columnToJSON
unfoldable pub column_to_json : Format → ColImpl → Result JsonColumn
column_to_json fmt c = do
  d ← data_by fmt c c.msg.dtype
  ok (record { name = c.msg.name; values = d })

unfoldable pub columns_to_json : Format → Frame → List String → Result (List JsonColumn)
unfolding column_to_json
columns_to_json fmt fr [] = ok []
columns_to_json fmt fr (name ∷ ns) = do
  c ← column fr name
  j ← wrapf "can't convert column to JSON" (column_to_json fmt c)
  rest ← columns_to_json fmt fr ns
  ok (j ∷ rest)

unfoldable pub indices_to_json : Format → List ColImpl → Result (List JsonColumn)
unfolding column_to_json
indices_to_json fmt [] = ok []
indices_to_json fmt (c ∷ cs) = do
  j ← wrapf "can't convert index to JSON" (column_to_json fmt c)
  rest ← indices_to_json fmt cs
  ok (j ∷ rest)

-- frameToJSON
unfoldable pub frame_to_json : Format → Frame → Result JsonFrame
unfolding columns_to_json indices_to_json
frame_to_json fmt fr = do
  ns ← (names fr).0
  cols ← columns_to_json fmt fr ns
  inds ← indices_to_json fmt fr.indices
  ok (record { columns = cols; indices = inds })

-- What the goroutine of a client's write leaves on its channel, if it does before the timeout; with
-- an error of the call there is no response.
pub data Answer : Type 0 where
  response : (status : ℕ) (body : String) → Answer
  failed : Error → Answer
  timeout : Answer

-- streamFrameAppender.WaitForComplete, once the writer is closed: the status is read from the
-- response before the error is looked at.
unfoldable pub wait_for_complete : Answer → Result (Unit {0})
wait_for_complete (response status body) =
    if status == 200 then ok tt else err (Error.external body)
wait_for_complete (failed e) = panic
wait_for_complete timeout = err Error.timed_out

-- A write whose call fails panics when the client waits for it.
wait_for_complete-failed : (e : Error) → wait_for_complete (failed e) ≡ panic
unfolding wait_for_complete
wait_for_complete-failed e = refl
