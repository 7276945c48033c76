-- ===== src/Tests/Writers.antt =====
-- The theorems on the appenders of the backends and on the loop that waits for the container, at
-- concrete inputs.
use frames.Base.{
  pos, pos_part, ℕ, zero, ◌+◌, ◌≤◌, ◌≡◌, refl, true, false, List, [], ◌∷◌, String, none, some, Dict,
  ok, length, replicate, timed_out,
}
use frames.Value.{Value}
use frames.Column.Utils.{col_at}
use frames.Column.Read.{int_at}
use frames.Frame.{Frame, names, column, frame_len, new_frame_from_proto}
use frames.Frame.Shape.{IsRect}
use frames.Wait.{Event, response, count, tick, new_loop, run, delete_run}
use frames.Wait.Laws.{responses_in, failure_in, run-ends, run-ok_counted, run_after_response}
use frames.Kv
use frames.Kv.Writer.{Request, put_item, Appender, new_appender, send_rows, add}
use frames.Kv.Sending.{Grows, pushed, add-Grows, send_rows-all}
use frames.Csv
use frames.Csv.{Row}
use frames.Csv.Tables.{Wide, add-Wide}
use frames.Tsdb.Reader.{Series, series_frame}
use frames.Tsdb.Series.{series_frame-IsRect}
use frames.Tests.Columns.{plain}
use frames.Tests.Streams.{people}

-- Two requests, the count between their responses, the second of which fails.
abbrev answers : List Event
answers = response none ∷ count 2 ∷ response (some timed_out) ∷ []

run-ends_example :
    ((run new_loop answers).finished ≡ true)
    × ((run new_loop answers).async_err ≡ failure_in none answers)
run-ends_example = run-ends 2 answers (refl, tt) refl

abbrev answered : List Event
answered = response none ∷ tick ∷ response none ∷ count 2 ∷ []

run-ok_counted_example :
    (n : ℕ) × ((run new_loop answered).requests ≡ pos n) × (n ≤ responses_in answered)
run-ok_counted_example =
    run-ok_counted answered (unfold run new_loop in refl) (unfold run new_loop in refl)

run_after_response_example :
    ((run new_loop (response none ∷ replicate 9 tick)).finished ≡ false)
    × ((delete_run new_loop (response none ∷ tick ∷ tick ∷ [])).finished ≡ true)
run_after_response_example =
    run_after_response new_loop none 9 (unfold new_loop in refl) (unfold new_loop in refl)

abbrev kv : Kv.Writer.Env
kv = record {
  send = λ old q. ok tt;
  put_schema = λ p s. ok tt;
  fmt = plain;
  show_d = λ v. "";
  show_v = λ v. "";
  show_f = λ x. "";
  replace = λ args s. s;
  zero_time = pos 0;
}

add-Grows_example : Grows (new_appender "t" "") (add kv people (new_appender "t" "")).1
add-Grows_example = add-Grows kv people (new_appender "t" "")

abbrev item : ℕ → Request
item zero = put_item "t/0" []
item i = put_item "t/x" []

send_rows-all_example :
    send_rows kv (λ i. ok (item i)) 2 0 (new_appender "t" "")
    ≡ (ok tt, record (new_appender "t" "") { sent = 2 + 0; requests = pushed item 2 0 [] })
send_rows-all_example =
    send_rows-all kv (λ i. ok (item i)) item 2 0 (new_appender "t" "") (λ i l u. refl)
      (λ old q. refl)

abbrev csv : Csv.Files.Env
csv = record { fmt = plain; show_v = λ v. "v"; accept = λ old row. ok tt }

abbrev file : Csv.Files.Appender
file = record {
  written = ("age" ∷ []) ∷ ("v" ∷ []) ∷ ("v" ∷ []) ∷ ("v" ∷ []) ∷ [];
  header_written = true;
}

add-Wide_example :
    (rows : List Row) × (file.written ≡ ("age" ∷ []) ∷ rows)
    × (length rows ≡ pos_part (frame_len people))
    × Wide (length {A = String} ("age" ∷ [])) rows
unfolding names new_frame_from_proto Csv.Files.add Csv.Files.record_of column col_at int_at
add-Wide_example = add-Wide csv people ("age" ∷ []) file refl refl

abbrev named : Dict Value
named = ("__name__", Value.string "cpu") ∷ []

abbrev series : Series
series = record {
  labels = record { name = "__name__"; value = "cpu" } ∷ [];
  samples = (pos 1000, 7) ∷ (pos 2500, 8) ∷ [];
  error = none;
}

series_frame-IsRect_example :
    (fr : Frame) × (series_frame true series ≡ ok fr)
    × IsRect fr
    × (frame_len fr ≡ pos (length series.samples))
series_frame-IsRect_example = series_frame-IsRect true series refl
