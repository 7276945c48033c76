-- ===== src/Frame/Growing.antt =====
-- frame.go and column.go: what Append and newColumn do to the length of a column.
use frames.Base.{
  none, ℤ, pos, ◌+ℤ◌, ℕ, suc, ◌<◌, ◌≡◌, refl, sym, ap, subst, ◌∙◌, false, String, ok, arith,
  int_laws,
}
use frames.Value.{Value, nan}
use frames.Column.{slice, DType, Column, ColImpl, len, slice_len, code}
use frames.Column.Edit.{Data, append, append_slice, append_by, new_slice_column}
use frames.Column.Appending.{append_slice_case, append_slice_msg, append_by_lem}
use frames.Column.Invariant.{IsValid}
use frames.Column.Utils.{zero_value}
use frames.Frame.Rows.{new_column}

-- A slice column with n rows.
pub record HasRows (n : ℕ) (c : ColImpl) : Type 0 where
  pub valid : IsValid c
  pub sliced : c.msg.kind ≡ slice
  pub rows : len c ≡ pos n

len_slice : (c : ColImpl) → c.msg.kind ≡ slice → len c ≡ slice_len c.msg c.msg.dtype
len_slice c k = ground arith

pub append-HasRows :
    (n : ℕ) (c d : ColImpl) (x : Value) → HasRows n c → append c x ≡ ok d → HasRows (suc n) d
append-HasRows n c d x h e =
    let (m, made, shape) = append_slice_msg c d x (sym (append_slice_case c x h.sliced) ∙ e) in
    let (kind, dtype, _, longer) = append_by_lem c.msg m c.times x c.msg.dtype refl h.sliced made in
    let n_rows : slice_len c.msg c.msg.dtype ≡ pos n = sym (len_slice c h.sliced) ∙ h.rows in
    subst (HasRows (suc n)) (sym shape) (record {
      valid = record { known = rw dtype h.valid.known; shape = rw kind tt };
      sliced = kind;
      rows =
          len_slice (record c { msg = m }) kind
          ∙ ap (λ (t : DType). slice_len m t) dtype
          ∙ longer
          ∙ ap (λ (l : ℤ). l +ℤ pos 1) n_rows
          ∙ omega int_laws;
    })

pub append-times :
    (n : ℕ) (c d : ColImpl) (x : Value) → HasRows n c → append c x ≡ ok d → d.times ≡ c.times
append-times n c d x h e =
    let (m, made, shape) = append_slice_msg c d x (sym (append_slice_case c x h.sliced) ∙ e) in
    ap (λ (y : ColImpl). y.times) shape

pub append-name :
    (n : ℕ) (c d : ColImpl) (x : Value) → HasRows n c → append c x ≡ ok d → d.msg.name ≡ c.msg.name
append-name n c d x h e =
    let (m, made, shape) = append_slice_msg c d x (sym (append_slice_case c x h.sliced) ∙ e) in
    let (_, _, name, _) = append_by_lem c.msg m c.times x c.msg.dtype refl h.sliced made in
    ap (λ (y : ColImpl). y.msg.name) shape ∙ name

-- The value that fills a gap can be appended.
abbrev pub Fills : DType → Type 0
Fills t =
    (v : Value) × (zero_value t ≡ ok v) × ((m : Column) → (m' : Column) × (append_by m t v ≡ ok m'))

pub zero_value-Fills : (t : DType) → code t < 5 → Fills t
unfolding zero_value
zero_value-Fills DType.integer h = (Value.int64 (pos 0), refl, λ m. (_, refl))
zero_value-Fills DType.float h = (Value.float64 nan, refl, λ m. (_, refl))
zero_value-Fills DType.string h = (Value.string "", refl, λ m. (_, refl))
zero_value-Fills DType.time h = (Value.time (pos 0), refl, λ m. (_, refl))
zero_value-Fills DType.boolean h = (Value.bool false, refl, λ m. (_, refl))
zero_value-Fills (DType.other n) h = absurd (omega arith)

pub append-filled :
    (n : ℕ) (c : ColImpl) (v : Value)
    → HasRows n c
    → ((m : Column) → (m' : Column) × (append_by m c.msg.dtype v ≡ ok m'))
    → (d : ColImpl) × (append c v ≡ ok d)
unfolding append_slice
append-filled n c v h f =
    let (m, e) = f c.msg in (record c { msg = m }, append_slice_case c v h.sliced ∙ rw e refl)

pub new_column-HasRows :
    (name : String) (v : Value) (c : ColImpl) → new_column name v ≡ ok c → HasRows 0 c
unfolding new_column new_slice_column
new_column-HasRows name (Value.int64 v) c e = ground arith
new_column-HasRows name (Value.int v) c e = ground arith
new_column-HasRows name (Value.int32 v) c e = ground arith
new_column-HasRows name (Value.int16 v) c e = ground arith
new_column-HasRows name (Value.int8 v) c e = ground arith
new_column-HasRows name (Value.float64 v) c e = ground arith
new_column-HasRows name (Value.float32 v) c e = ground arith
new_column-HasRows name (Value.string v) c e = ground arith
new_column-HasRows name (Value.time v) c e = ground arith
new_column-HasRows name (Value.bool v) c e = ground arith
new_column-HasRows name Value.nil c e = cc
new_column-HasRows name Value.other c e = cc

pub append-dtype :
    (n : ℕ) (c d : ColImpl) (x : Value)
    → HasRows n c
    → append c x ≡ ok d
    → d.msg.dtype ≡ c.msg.dtype
append-dtype n c d x h e =
    let (m, made, shape) = append_slice_msg c d x (sym (append_slice_case c x h.sliced) ∙ e) in
    let (_, dtype, _, _) = append_by_lem c.msg m c.times x c.msg.dtype refl h.sliced made in
    ap (λ (y : ColImpl). y.msg.dtype) shape ∙ dtype

-- A new slice column has no cache, and the name that it is given.
pub new_slice_column-fresh :
    (n : String) (d : Data) (c : ColImpl)
    → new_slice_column n d ≡ ok c
    → (c.times ≡ none) × (c.msg.name ≡ n)
unfolding new_slice_column
new_slice_column-fresh n (Data.bools xs) c h = (ground arith, ground arith)
new_slice_column-fresh n (Data.floats xs) c h = (ground arith, ground arith)
new_slice_column-fresh n (Data.ints xs) c h = (ground arith, ground arith)
new_slice_column-fresh n (Data.int64s xs) c h = (ground arith, ground arith)
new_slice_column-fresh n (Data.strings xs) c h = (ground arith, ground arith)
new_slice_column-fresh n (Data.times xs) c h = (ground arith, ground arith)
new_slice_column-fresh n Data.other c h = cc
