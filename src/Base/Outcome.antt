-- ===== src/Base/Outcome.antt =====
-- How a Go call ends: with a value, with an error that it returns, or with a run-time panic
-- (an index out of range, a make with a negative size).
use Prim.Native.Nat.{ℕ, ◌-◌, ◌<◌}
use Prim.Native.String.{String}
use mathlib.Core.Path.{◌≡◌, refl}
use mathlib.Core.Logic.{◌⊎◌, inl, inr}
use mathlib.Core.Bool.{Bool, true, false, ◌&&◌}
use mathlib.Core.Option.{Option, none, some}
use mathlib.Core.List.{List}
use frames.Base.Tests.{if◌then◌else◌}
use frames.Base.Lists.{length, get_elem?, take, drop, get_elem?-lt}
use frames.Base.Int.{ℤ, pos, negsuc, leb_ℤ}

-- One constructor for each message of the code, with the values that the message shows where
-- they tell errors apart.
pub data Error : Type 0 where
  wrong_dtype unknown_dtype wrong_type label_mismatch unknown_data_type : Error
  out_of_bounds : (index len : ℤ) → Error
  start_after_end : Error
  not_that_column : Error
  negative_slice end_before_start start_out_of_bounds end_out_of_bounds : Error
  size_mismatch : String → Error
  index_size_mismatch : ℕ → Error
  unsupported_value : Error
  column_not_found duplicate_column : String → Error
  time_schema_change : Error
  no_backends missing_type : Error
  duplicate_backend already_registered unknown_backend : String → Error
  missing_parameters bad_query : Error
  query_and_table query_and_columns query_and_filter query_and_group_by : Error
  eof bad_header : Error
  short_write short_read : (got wanted : ℕ) → Error
  row_size_mismatch type_mismatch : ℕ → Error
  empty_frame multi_index : Error
  timed_out : Error
  bad_state empty_url : Error
  bad_status : ℕ → Error
  no_columns unknown_command table_exists no_table no_indices no_time_index : Error
  out_of_order bad_label missing_key : Error
  bad_attribute missing_attribute : String → Error
  bad_frame nil_request stream_closed : Error
  no_field_name : ℕ → Error
  -- an error of code outside the repository
  external : String → Error
  -- errors.Wrap
  wrap : String → Error → Error

pub data Result {ℓ} (A : Type ℓ) : Type ℓ where
  panic : Result A
  err : Error → Result A
  ok : A → Result A

-- `if err != nil { return errors.Wrap(err, msg) }`
abbrev pub wrapf {ℓ} : {A : Type ℓ} → String → Result A → Result A
wrapf msg panic = panic
wrapf msg (err e) = err (wrap msg e)
wrapf msg (ok a) = ok a

infixl 5 ◌>>=◌ ◌>>◌
abbrev pub ◌>>=◌ {ℓ κ} : {A : Type ℓ} {B : Type κ} → Result A → (A → Result B) → Result B
panic >>= k = panic
err e >>= k = err e
ok a >>= k = k a

-- `if !b { return e }`
abbrev pub guard : Bool → Error → Result (Unit {0})
guard false e = err e
guard true e = ok tt

abbrev pub ◌>>◌ {ℓ} : {B : Type ℓ} → Result (Unit {0}) → Result B → Result B
m >> r = m >>= λ _. r

module _ {ℓ} {A : Type ℓ} where
  abbrev pub or_panic : Option A → Result A
  or_panic none = panic
  or_panic (some a) = ok a

  -- `xs[i]`
  abbrev pub at : List A → ℤ → Result A
  at xs (pos i) = or_panic (get_elem? xs i)
  at xs (negsuc i) = panic

  -- `xs[i:j]` with j up to the length (the capacity is not modelled: every caller has checked j).
  abbrev pub slice_list : List A → ℤ → ℤ → Result (List A)
  slice_list xs (pos i) (pos j) =
      if leb_ℤ (pos i) (pos j) && leb_ℤ (pos j) (pos (length xs))
      then ok (take (j - i) (drop i xs))
      else panic
  slice_list xs _ _ = panic

  pub at-lt : (xs : List A) (i : ℕ) → i < length xs → (a : A) × (at xs (pos i) ≡ ok a)
  at-lt xs i h = let (a, e) = get_elem?-lt xs i h in (a, rw e)

pub >>=-eq-ok {ℓ κ} :
    {A : Type ℓ} {B : Type κ} (m : Result A) (k : A → Result B) {b : B}
    → (m >>= k) ≡ ok b
    → (a : A) × (m ≡ ok a) × (k a ≡ ok b)
>>=-eq-ok panic k h = cc
>>=-eq-ok (err e) k h = cc
>>=-eq-ok (ok a) k h = (a, refl, h)

pub wrapf-eq-ok {ℓ} :
    {A : Type ℓ} (msg : String) (m : Result A) {a : A} → wrapf msg m ≡ ok a → m ≡ ok a
wrapf-eq-ok msg (ok a) h = h
wrapf-eq-ok msg (err e) h = cc
wrapf-eq-ok msg panic h = cc

abbrev pub is_ok {ℓ} : {A : Type ℓ} → Result A → Bool
is_ok (ok a) = true
is_ok (err e) = false
is_ok panic = false

abbrev pub is_panic {ℓ} : {A : Type ℓ} → Result A → Bool
is_panic panic = true
is_panic _ = false

pub is_ok-true {ℓ} : {A : Type ℓ} (m : Result A) → is_ok m ≡ true → (a : A) × (m ≡ ok a)
is_ok-true (ok a) h = (a, refl)
is_ok-true (err e) h = cc
is_ok-true panic h = cc

pub Result-cases {ℓ} :
    {A : Type ℓ} (m : Result A) → ((a : A) × (m ≡ ok a)) ⊎ ((e : Error) × (m ≡ err e)) ⊎ (m ≡ panic)
Result-cases (ok a) = inl (a, refl)
Result-cases (err e) = inr (inl (e, refl))
Result-cases panic = inr (inr refl)
