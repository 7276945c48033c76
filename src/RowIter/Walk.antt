-- ===== src/RowIter/Walk.antt =====
-- rowiter.go: a loop over Next reads every row once.
use frames.Base.{
  pos, ℕ, zero, suc, ◌+◌, ◌≤◌, ◌<◌, ◌≡◌, ap, ◌∙◌, true, false, List, [], ◌∷◌, Option, none, Dict,
  arith, Error, ok,
}
use frames.Value.{Value}
use frames.Column.Read.{Format}
use frames.Frame.{frame_len}
use frames.RowIter.{RowIterator, get_row, next, read_rows}

-- The rows from r on.
abbrev pub rows_from : (ℕ → Dict Value) → (count r : ℕ) → List (Dict Value)
rows_from row zero r = []
rows_from row (suc n) r = row r ∷ rows_from row n (suc r)

next_end :
    (fmt : Format) (it : RowIterator)
    → it.error ≡ none
    → frame_len it.frame ≡ pos it.row_num
    → next fmt it ≡ ok (false, it)
unfolding next
next_end fmt it e l = ground arith

next_row :
    (fmt : Format) (it : RowIterator) (n : ℕ) (row : Dict Value)
    → it.error ≡ none
    → frame_len it.frame ≡ pos (it.row_num + suc n)
    → get_row fmt it.row_num it.columns ≡ ok row
    → next fmt it ≡ ok (true, record it { row = row; row_num = it.row_num + 1 })
unfolding next
next_row fmt it n row e l g = ground arith

-- A loop over an iterator that has n rows left, each of which can be read, ends after n rounds: it
-- has read these rows, in their order, and sees no error.
pub read_rows-all :
    (fmt : Format) (n : ℕ) (it : RowIterator) (row : ℕ → Dict Value)
    → it.error ≡ none
    → frame_len it.frame ≡ pos (it.row_num + n)
    → ((i : ℕ) → it.row_num ≤ i → i < it.row_num + n → get_row fmt i it.columns ≡ ok (row i))
    → read_rows (suc n) fmt it ≡ ok (rows_from row n it.row_num, none)
unfolding read_rows
read_rows-all fmt zero it row e l rows =
    rw (next_end fmt it e (l ∙ ap pos (omega arith))) (ap (λ (x : Option Error). ok ([], x)) e)
read_rows-all fmt (suc n) it row e l rows =
    let it' = record it { row = row it.row_num; row_num = it.row_num + 1 } in
    rw (next_row fmt it n (row it.row_num) e l (rows it.row_num (omega arith) (omega arith))) (
      rw
        (read_rows-all fmt n it' row e (l ∙ ap pos (omega arith))
          (λ i p q. rows i (omega arith) (omega arith)))
        (ground arith))
