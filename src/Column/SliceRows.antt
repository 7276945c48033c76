-- ===== src/Column/SliceRows.antt =====
-- What a slice of a column holds: row i of the slice is row start + i of the column.
use frames.Column.{Column}
