-- ===== src/Column.antt =====
-- column.go: a column over its protobuf message. Go's slices have value semantics here: that two
-- columns may share a backing array is not modelled.
pub mod Read
pub mod Edit
pub mod Utils
pub mod Invariant
pub mod Slicing
pub mod SliceRows
pub mod Appending
pub mod AppendRows
pub mod Cache
use frames.Base.{
  ℤ, pos, negsuc, ℕ, ◌+◌, Bool, List, String, Option, none, length, Error, Result, ok, ◌>>=◌, ◌>>◌,
  ltb_ℤ, leb_ℤ, ◌&&◌, ◌==◌, guard,
}

-- pb.Column_Kind
pub data Kind : Type 0 where
  slice label : Kind

-- pb.DType, with any other number that a message may carry.
pub data DType : Type 0 where
  integer float string time boolean : DType
  other : ℕ → DType

abbrev pub code : DType → ℕ
code DType.integer = 0
code DType.float = 1
code DType.string = 2
code DType.time = 3
code DType.boolean = 4
code (DType.other n) = 5 + n

-- The message pb.Column.
pub record Column : Type 0 where
  pub kind : Kind
  pub name : String
  pub dtype : DType
  pub size : ℤ
  pub ints : List ℤ
  pub floats : List ℕ
  pub strings : List String
  pub times : List ℤ
  pub bools : List Bool

-- colImpl; `none` is the nil slice, a cache not yet filled.
pub record ColImpl : Type 0 where
  pub msg : Column
  pub times : Option (List ℤ)

-- The length of the slice that the dtype selects.
abbrev pub slice_len : Column → DType → ℤ
slice_len m DType.integer = pos (length m.ints)
slice_len m DType.float = pos (length m.floats)
slice_len m DType.string = pos (length m.strings)
slice_len m DType.time = pos (length m.times)
slice_len m DType.boolean = pos (length m.bools)
slice_len m (DType.other n) = negsuc 0

abbrev kind_len : Column → Kind → ℤ
kind_len m label = m.size
kind_len m slice = slice_len m m.dtype

-- Len
abbrev pub len : ColImpl → ℤ
len c = kind_len c.msg c.msg.kind

-- checkInbounds
abbrev pub check_inbounds : ColImpl → ℤ → Result (Unit {0})
check_inbounds c i = guard (leb_ℤ (pos 0) i && ltb_ℤ i (len c)) (Error.out_of_bounds i (len c))

-- checkDType
abbrev pub check_dtype : ColImpl → DType → Result (Unit {0})
check_dtype c dtype = guard (code c.msg.dtype == code dtype) Error.wrong_dtype

-- validateAt
abbrev pub validate_at : ColImpl → DType → ℤ → Result (Unit {0})
validate_at c dtype i = do check_dtype c dtype; check_inbounds c i

-- `if c.msg.Kind == pb.Column_LABEL { i = 0 }`
abbrev pub label_index : Kind → ℤ → ℤ
label_index label i = pos 0
label_index slice i = i
