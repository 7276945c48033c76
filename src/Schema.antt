-- ===== src/Schema.antt =====
-- v3ioutils/schema.go: the schema of a key/value table, and how a write merges its own into it.
pub mod Laws
use frames.Base.{
  ℕ, suc, Bool, true, false, List, [], ◌∷◌, ◌++◌, String, Option, none, some, Error, Result, ok,
  err, panic, ◌>>=◌, ◌>>◌, wrapf, str_eq, not, ◌&&◌, ◌||◌, if◌then◌else◌,
}
use frames.Value.{Value}
use frames.Column.{DType, ColImpl}

abbrev pub long_type : String
long_type = "long"

abbrev pub double_type : String
double_type = "double"

abbrev pub string_type : String
string_type = "string"

abbrev pub time_type : String
time_type = "time"

-- OldSchemaField
pub record Field : Type 0 where
  pub name : String
  pub type : String
  pub nullable : Bool

-- OldV3ioSchema
pub record Schema : Type 0 where
  pub fields : List Field
  pub key : String
  pub hashing_bucket_num : ℕ

-- NewSchema
unfoldable pub new_schema : String → Schema
new_schema key = record { fields = []; key = key; hashing_bucket_num = 0 }

-- The switch of AddColumn: a dtype that it does not name leaves the empty string.
abbrev pub column_type : DType → String
column_type DType.integer = long_type
column_type DType.float = double_type
column_type DType.string = string_type
column_type DType.time = time_type
column_type _ = ""

-- AddColumn
unfoldable pub add_column : Schema → String → ColImpl → Bool → Schema
add_column s name col nullable =
    let field : Field = record {
      name = name;
      type = column_type col.msg.dtype;
      nullable = nullable;
    } in
    record s { fields = s.fields ++ (field ∷ []) }

-- The switch of AddField.
abbrev pub value_type : Value → String
value_type (Value.int v) = long_type
value_type (Value.int32 v) = long_type
value_type (Value.int64 v) = long_type
value_type (Value.float32 v) = double_type
value_type (Value.float64 v) = double_type
value_type (Value.string v) = string_type
value_type (Value.time v) = time_type
value_type _ = ""

-- AddField
unfoldable pub add_field : Schema → String → Value → Bool → Schema
add_field s name val nullable =
    let field : Field = record { name = name; type = value_type val; nullable = nullable } in
    record s { fields = s.fields ++ (field ∷ []) }

-- The last field of that name: the inner loop does not stop at the first.
unfoldable pub find_field : String → List Field → Option Field
find_field name [] = none
find_field name (f ∷ fs) = elim (find_field name fs) [
  | some g ↦ some g
  | none ↦ if str_eq f.name name then some f else none
]

-- `s.Fields[index].Type = typ` at the last field of that name.
unfoldable pub retype : String → String → List Field → List Field
unfolding find_field
retype name typ [] = []
retype name typ (f ∷ fs) =
    let rest = retype name typ fs in
    elim (find_field name fs) [
      | some g ↦ f ∷ rest
      | none ↦ if str_eq f.name name then record f { type = typ } ∷ fs else f ∷ fs
    ]

-- The fields after one round, and whether the round changed them.
pub record Merged : Type 0 where
  pub fields : List Field
  pub changed : Bool

-- A field whose name is there with another type.
abbrev pub merge_types : Merged → Field → String → Result Merged
merge_types m field old =
    if str_eq field.type string_type
    then ok (record { fields = retype field.name string_type m.fields; changed = true })
    else (if str_eq field.type double_type && str_eq old long_type
        then ok (record { fields = retype field.name double_type m.fields; changed = true })
        else (if str_eq field.type time_type || str_eq old time_type
            then err Error.time_schema_change
            else ok m))

abbrev pub append_field : Merged → Field → Result Merged
append_field m field = ok (record { fields = m.fields ++ (field ∷ []); changed = true })

-- One round of the loop: a field that is new, and also one that is there with the same type, is
-- appended.
abbrev pub merge_found : Merged → Field → Option Field → Result Merged
merge_found m field none = append_field m field
merge_found m field (some g) =
    if not (str_eq field.type g.type) then merge_types m field g.type else append_field m field

unfoldable pub merge_field : Merged → Field → Result Merged
unfolding find_field retype
merge_field m field = merge_found m field (find_field field.name m.fields)

unfoldable pub merge_fields : Merged → List Field → Result Merged
unfolding merge_field
merge_fields m [] = ok m
merge_fields m (field ∷ fields) = do m' ← merge_field m field; merge_fields m' fields

abbrev pub merge_key : Schema → Schema → Merged → Schema × Bool
merge_key s new m =
    if not (str_eq s.key new.key) && not (str_eq new.key "")
    then (record s { fields = m.fields; key = new.key }, true)
    else (record s { fields = m.fields }, m.changed)

-- merge: the merged schema, and whether it changed. (On an error the source has already changed
-- the fields of the earlier rounds; the caller gives the schema up.)
unfoldable pub merge : Schema → Schema → Result (Schema × Bool)
unfolding merge_fields
merge s new = do
  m ← merge_fields (record { fields = s.fields; changed = false }) new.fields
  ok (merge_key s new m)

-- Writing the schema object to the container.
abbrev pub Put : Type 0
Put = Schema → Result (Unit {0})

abbrev put_if : Put → Bool → Schema → Result Schema
put_if put true s = do wrapf "failed to update schema" (put s); ok s
put_if put false s = ok s

-- UpdateSchema
unfoldable pub update_schema : Put → Schema → Schema → Result Schema
unfolding merge
update_schema put s new = do
  merged ← wrapf "failed to merge schema" (merge s new)
  put_if put merged.1 merged.0
