-- ===== src/Kv/Inferring.antt =====
-- backends/kv/inferschema.go and v3ioutils/schema.go: what inferSchema writes.
use frames.Base.{◌≡◌, true, false, List, [], ◌∷◌, String, none, ok}
use frames.Column.{ColImpl}
use frames.Frame.{Frame, column}
use frames.Frame.Rows.{in_slice}
use frames.Schema.{Field, Schema, column_type, find_field}

-- A field for each of the columns, in their order, with the name and the type of the column.
abbrev pub FieldsOf : Frame → List String → List Field → Type 0
FieldsOf fr [] [] = Unit
FieldsOf fr (name ∷ ns) (f ∷ fs) =
    (c : ColImpl) × (column fr name ≡ ok c)
    × (f ≡ record { name = name; type = column_type c.msg.dtype; nullable = true })
    × FieldsOf fr ns fs
FieldsOf fr _ _ = ⊥

abbrev pub Distinct : List String → List Field → Type 0
Distinct seen [] = Unit
Distinct seen (f ∷ fs) = (in_slice f.name seen ≡ false) × Distinct (f.name ∷ seen) fs

-- The fields so far have the names in `seen`.
abbrev Named : List String → List Field → Type 0
Named seen fs = (name : String) → in_slice name seen ≡ false → find_field name fs ≡ none
