-- ===== src/Schema/Laws.antt =====
-- v3ioutils/schema.go: what merging does to the types of the fields.
use frames.Base.{
  ◌≡◌, ◌≢◌, refl, ◌∙◌, ◌⊎◌, inl, inr, Bool, true, false, List, [], ◌∷◌, ◌++◌, String, Option, none,
  some, All, ok, >>=-eq-ok, arith, str_eq, eq_iff, Bool-cases, Option-cases, ◌&&◌, if◌then◌else◌,
}
use mathlib.Core.List.{append-nil, append_assoc}
use frames.Schema.{
  Field, Schema, Merged, find_field, retype, merge_found, merge_field, merge_fields, merge_key,
  merge, string_type, double_type, long_type,
}

-- A type may stay, become string, or go from long to double.
abbrev pub Widens : String → String → Type 0
Widens a b = (a ≡ b) ⊎ (b ≡ string_type) ⊎ (a ≡ long_type) × (b ≡ double_type)

double_ne_long : double_type ≢ long_type
double_ne_long = ground (arith, eq_iff double_type long_type)

string_ne_long : string_type ≢ long_type
string_ne_long = ground (arith, eq_iff string_type long_type)

Widens-trans : (a b c : String) → Widens a b → Widens b c → Widens a c
Widens-trans a b c h k = ground (arith, double_ne_long, string_ne_long)

find_field-append :
    (name : String) (fs : List Field) (f : Field)
    → find_field name (fs ++ (f ∷ [])) ≡ (if str_eq f.name name then some f else find_field name fs)
unfolding find_field
find_field-append name [] f = refl
find_field-append name (g ∷ fs) f = ground (arith, find_field-append name fs f)

find_field-name :
    (name : String) (fs : List Field) (f : Field) → find_field name fs ≡ some f → f.name ≡ name
unfolding find_field
find_field-name name [] f h = cc
find_field-name name (g ∷ fs) f h = ground (arith, find_field-name name fs f, eq_iff g.name name)

find_field-retype_self :
    (name typ : String) (fs : List Field) (g : Field)
    → find_field name fs ≡ some g
    → find_field name (retype name typ fs) ≡ some (record g { type = typ })
unfolding find_field retype
find_field-retype_self name typ [] g h = cc
find_field-retype_self name typ (f ∷ fs) g h = elim (Option-cases (find_field name fs)) [
  | inl e ↦ ground arith
  | inr (x, e) ↦ ground (arith, find_field-retype_self name typ fs x)
]

find_field-retype_ne :
    (name other typ : String) (fs : List Field)
    → str_eq name other ≡ false
    → find_field other (retype name typ fs) ≡ find_field other fs
unfolding find_field retype
find_field-retype_ne name other typ [] h = refl
find_field-retype_ne name other typ (f ∷ fs) h = ground (
  arith,
  find_field-retype_ne name other typ fs h,
  eq_iff f.name name,
  eq_iff f.name other,
  eq_iff name other,
)

-- How a round that succeeds can end.
abbrev Appended : Merged → Merged → Field → Type 0
Appended m m' field =
    (m'.fields ≡ m.fields ++ (field ∷ []))
    × ((find_field field.name m.fields ≡ none)
        ⊎ ((g : Field) × (find_field field.name m.fields ≡ some g) × (g.type ≡ field.type)))

abbrev Retyped : Merged → Merged → Field → Type 0
Retyped m m' field =
    (g : Field) × (typ : String) × (find_field field.name m.fields ≡ some g)
    × (m'.fields ≡ retype field.name typ m.fields)
    × Widens g.type typ

merge_found_cases :
    (m m' : Merged) (field : Field) (o : Option Field)
    → find_field field.name m.fields ≡ o
    → merge_found m field o ≡ ok m'
    → Appended m m' field ⊎ Retyped m m' field ⊎ (m'.fields ≡ m.fields)
merge_found_cases m m' field none e h = inl (ground arith, inl e)
merge_found_cases m m' field (some g) e h = elim (Bool-cases (str_eq field.type g.type)) [
  | inl same ↦ inl (ground arith, inr (g, e, ground (arith, eq_iff field.type g.type)))
  | inr differ ↦ elim (Bool-cases (str_eq field.type string_type)) [
    | inl text ↦ inr (inl (g, string_type, e, ground arith, inr (inl refl)))
    | inr not_text ↦ elim (Bool-cases (str_eq field.type double_type && str_eq g.type long_type)) [
      | inl wider ↦ inr (
          inl (
            g,
            double_type,
            e,
            ground arith,
            inr (inr (ground (arith, eq_iff g.type long_type), refl)),
          ))
      | inr other ↦ inr (inr (ground arith))
    ]
  ]
]

abbrev Kept : List Field → String → Field → Type 0
Kept fields name f = (g : Field) × (find_field name fields ≡ some g) × Widens f.type g.type

merge_field-Kept :
    (m m' : Merged) (field f : Field) (name : String)
    → merge_field m field ≡ ok m'
    → find_field name m.fields ≡ some f
    → Kept m'.fields name f
unfolding merge_field
merge_field-Kept m m' field f name h e =
    elim (merge_found_cases m m' field (find_field field.name m.fields) refl h) [
      | inl (grown, known) ↦ elim (Bool-cases (str_eq field.name name)) [
        | inl same ↦ (
          field,
          ground (arith, find_field-append name m.fields field),
          ground (arith, eq_iff field.name name),
        )
        | inr other ↦ (f, ground (arith, find_field-append name m.fields field), inl refl)
      ]
      | inr (inl (g, typ, found, changed, wider)) ↦ elim (Bool-cases (str_eq field.name name)) [
        | inl same ↦ (
          record g { type = typ },
          ground (arith, find_field-retype_self name typ m.fields g, eq_iff field.name name),
          ground (arith, eq_iff field.name name),
        )
        | inr other ↦
            (f, ground (arith, find_field-retype_ne field.name name typ m.fields other), inl refl)
      ]
      | inr (inr same) ↦ (f, rw same e, inl refl)
    ]

merge_fields-Kept :
    (fields : List Field) (m m' : Merged) (f : Field) (name : String)
    → merge_fields m fields ≡ ok m'
    → find_field name m.fields ≡ some f
    → Kept m'.fields name f
unfolding merge_fields
merge_fields-Kept [] m m' f name h e = (f, ground arith, inl refl)
merge_fields-Kept (field ∷ fields) m m' f name h e =
    let (m₁, step, rest) = >>=-eq-ok (merge_field m field) _ h in
    let (g, found, wider) = merge_field-Kept m m₁ field f name step e in
    let (k, found', wider') = merge_fields-Kept fields m₁ m' g name rest found in
    (k, found', Widens-trans f.type g.type k.type wider wider')

-- A merge that succeeds loses no field, and changes the type under which a field is found only
-- from long to double or to string.
pub merge-Widens :
    (s new t : Schema) (changed : Bool) (f : Field) (name : String)
    → merge s new ≡ ok (t, changed)
    → find_field name s.fields ≡ some f
    → (g : Field) × (find_field name t.fields ≡ some g) × Widens f.type g.type
unfolding merge
merge-Widens s new t changed f name h e =
    let start : Merged = record { fields = s.fields; changed = false } in
    let (m, done, made) = >>=-eq-ok (merge_fields start new.fields) _ h in
    let (g, found, wider) = merge_fields-Kept new.fields start m f name done e in
    (g, ground arith, wider)

-- Both schemas give every name the type that `t` gives it.
abbrev pub Typed : (String → String) → List Field → Type 0
Typed t = All (λ f. f.type ≡ t f.name)

Typed-find_field :
    (t : String → String) (name : String) (fs : List Field) (g : Field)
    → Typed t fs
    → find_field name fs ≡ some g
    → g.type ≡ t name
unfolding find_field
Typed-find_field t name [] g ty h = cc
Typed-find_field t name (f ∷ fs) g ty h =
    ground (arith, Typed-find_field t name fs g ty.1, eq_iff f.name name)

Typed-append :
    (t : String → String) (fs : List Field) (f : Field)
    → Typed t fs
    → f.type ≡ t f.name
    → Typed t (fs ++ (f ∷ []))
Typed-append t [] f ty e = (e, tt)
Typed-append t (g ∷ fs) f ty e = (ty.0, Typed-append t fs f ty.1 e)

merge_field-Typed :
    (t : String → String) (m : Merged) (f : Field)
    → Typed t m.fields
    → f.type ≡ t f.name
    → merge_field m f ≡ ok (record { fields = m.fields ++ (f ∷ []); changed = true })
unfolding merge_field
merge_field-Typed t m f ty e = elim (Option-cases (find_field f.name m.fields)) [
  | inl absent ↦ rw absent refl
  | inr (g, found) ↦
      rw found (ground (arith, Typed-find_field t f.name m.fields g ty found, eq_iff f.type g.type))
]

abbrev pub changed_by : Bool → List Field → Bool
changed_by b [] = b
changed_by b (f ∷ fs) = true

changed_by-true : (fs : List Field) → changed_by true fs ≡ true
changed_by-true [] = refl
changed_by-true (f ∷ fs) = refl

merge_fields-Typed :
    (t : String → String) (fs : List Field) (m : Merged)
    → Typed t m.fields
    → Typed t fs
    → merge_fields m fs ≡ ok (record { fields = m.fields ++ fs; changed = changed_by m.changed fs })
unfolding merge_fields
merge_fields-Typed t [] m ty tz = rw (append-nil m.fields) refl
merge_fields-Typed t (f ∷ fs) m ty tz =
    let m' : Merged = record { fields = m.fields ++ (f ∷ []); changed = true } in
    rw (merge_field-Typed t m f ty tz.0) (
      merge_fields-Typed t fs m' (Typed-append t m.fields f ty tz.0) tz.1
      ∙ ground (arith, append_assoc m.fields (f ∷ []) fs, changed_by-true fs))

-- Merging schemas that agree on every type appends all the fields of the new one, those that are
-- there already too, and reports a change whenever the new one has a field.
merge-Typed :
    (t : String → String) (s new : Schema)
    → Typed t s.fields
    → Typed t new.fields
    → (u : Schema) × (changed : Bool) × (merge s new ≡ ok (u, changed))
      × (u.fields ≡ s.fields ++ new.fields)
      × ((changed_by false new.fields ≡ false) ⊎ (changed ≡ true))
unfolding merge
merge-Typed t s new ty tz =
    let start : Merged = record { fields = s.fields; changed = false } in
    let m : Merged = record {
      fields = s.fields ++ new.fields;
      changed = changed_by false new.fields;
    } in
    (
      (merge_key s new m).0,
      (merge_key s new m).1,
      rw (merge_fields-Typed t new.fields start ty tz) refl,
      ground arith,
      ground arith,
    )
