-- ===== src/Csv/Batches.antt =====
-- backends/csv/backend.go: how many rows a frame, and a whole read, can have.
use frames.Base.{
  pos, ◌≤ℤ◌, ℕ, ◌+◌, ◌≡◌, refl, true, List, [], ◌∷◌, arith, length, All, Result, ok, err, panic,
  ◌==◌, Bool-cases, inl, inr, ◌⊎◌,
}
use frames.Csv.{Row, Iterator, in_limits, add_row, read_next_rows}

-- What a batch that starts at frame row r may be: the rows are counted, each has a cell for each
-- column, and where a limit is set it holds for the rows read in all and for the frame.
abbrev pub IsBatch : ℕ → Iterator → Result (List Row) × Iterator → Type 0
IsBatch r it (ok rows, it') =
    (it'.n_rows ≡ it.n_rows + length rows)
    × (it'.column_names ≡ it.column_names)
    × (it'.limit ≡ it.limit)
    × (it'.frame_limit ≡ it.frame_limit)
    × All (λ (row : Row). length row ≡ length it.column_names) rows
    × ((it.limit ≤ℤ pos 0) ⊎ (rows ≡ []) ⊎ (pos it'.n_rows ≤ℤ it.limit))
    × ((it.frame_limit ≤ℤ pos 0) ⊎ (rows ≡ []) ⊎ (pos (r + length rows) ≤ℤ it.frame_limit))
IsBatch r it (_, it') = Unit

add_row-IsBatch :
    (row : Row) (rs : List (Result Row)) (r : ℕ) (it : Iterator)
    (res : Result (List Row) × Iterator)
    → in_limits it r ≡ true
    → length row ≡ length it.column_names
    → IsBatch (r + 1) (record it { reader = rs; n_rows = it.n_rows + 1 }) res
    → IsBatch r it (add_row row res)
add_row-IsBatch row rs r it (ok rows, it') opened wide
      (count, names, lim, flim, widths, total, here) =
    (ground arith, names, lim, flim, (wide, widths), ground arith, ground arith)
add_row-IsBatch row rs r it (err e, it') opened wide h = tt
add_row-IsBatch row rs r it (panic, it') opened wide h = tt

empty-IsBatch : (r : ℕ) (it : Iterator) → IsBatch r it (ok [], it)
empty-IsBatch r it = (omega arith, refl, refl, refl, tt, inr (inl refl), inr (inl refl))

-- A batch never runs past the limit on all rows nor the limit on a frame (where these are
-- positive), holds only records as wide as the header, and counts every row that it takes.
pub read_next_rows-IsBatch :
    (rs : List (Result Row)) (r : ℕ) (it : Iterator) → IsBatch r it (read_next_rows rs r it)
unfolding read_next_rows
read_next_rows-IsBatch [] r it = empty-IsBatch r it
read_next_rows-IsBatch (ok row ∷ rs) r it = elim (Bool-cases (in_limits it r)) [
  | inr closed ↦ rw (closed, read_next_rows) (empty-IsBatch r it)
  | inl opened ↦ elim (Bool-cases (length row == length it.column_names)) [
    | inr narrow ↦ rw (opened, read_next_rows) (rw narrow tt)
    | inl wide ↦
        rw (opened, read_next_rows)
          (rw wide (
            add_row-IsBatch row rs r it _ opened (ground arith) (
              read_next_rows-IsBatch rs (r + 1)
                (record it { reader = rs; n_rows = it.n_rows + 1 }))))
  ]
]
read_next_rows-IsBatch (err e ∷ rs) r it = elim (Bool-cases (in_limits it r)) [
  | inr closed ↦ rw (closed, read_next_rows) (empty-IsBatch r it)
  | inl opened ↦ rw (opened, read_next_rows) tt
]
read_next_rows-IsBatch (panic ∷ rs) r it = elim (Bool-cases (in_limits it r)) [
  | inr closed ↦ rw (closed, read_next_rows) (empty-IsBatch r it)
  | inl opened ↦ rw (opened, read_next_rows) tt
]
