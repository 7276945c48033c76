-- ===== src/Kv/Sending.antt =====
-- backends/kv/writer.go: which requests an appender sends, and what it counts.
use Prim.Native.Char.{Char, code}
use mathlib.Core.List.{append_assoc}
use frames.Base.{
  pos_part, ℕ, zero, suc, ◌+◌, ◌<◌, ◌≤◌, ◌≡◌, ◌≢◌, refl, sym, ap, ◌∙◌, inl, inr, Bool, true, false,
  List, [], ◌∷◌, ◌++◌, String, Dict, arith, Result, ok, err, panic, length, Bool-cases, str_eq,
  length-append, ◌==◌,
}
use frames.Column.{ColImpl}
use frames.Schema.{Schema, update_schema}
use frames.Frame.{Frame, names, frame_len}
use frames.Kv.Writer.{
  Request, Env, Appender, valid_char, valid_col_name, on_ok, put_all, add_by, add_named, send_one,
  then_go, send_rows, put_row, update_row, add, update, frame_schema, index_val_func,
}

-- The requests that the appender had are there still, and the count has grown by the others.
pub record Grows (a b : Appender) : Type 0 where
  pub new : List Request
  pub kept : b.requests ≡ new ++ a.requests
  pub counted : b.sent ≡ length new + a.sent
  pub path : b.table_path ≡ a.table_path

Grows-self :
    (a b : Appender)
    → b.requests ≡ a.requests
    → b.sent ≡ a.sent
    → b.table_path ≡ a.table_path
    → Grows a b
Grows-self a b p q r = record { new = []; kept = p; counted = omega (arith, q); path = r }

Grows-trans : (a b c : Appender) → Grows a b → Grows b c → Grows a c
Grows-trans a b c g h = record {
  new = h.new ++ g.new;
  kept =
      h.kept
      ∙ ap (λ (rs : List Request). h.new ++ rs) g.kept
      ∙ sym (append_assoc h.new g.new a.requests);
  counted = omega (arith, g.counted, h.counted, length-append h.new g.new);
  path = h.path ∙ g.path;
}

on_ok-Grows {ℓ} :
    {A : Type ℓ} (a : Appender) (m : Result A) (more : A → Result (Unit {0}) × Appender)
    → ((x : A) → Grows a (more x).1)
    → Grows a (on_ok a m more).1
on_ok-Grows a (ok x) more h = h x
on_ok-Grows a (err e) more h = Grows-self a a refl refl refl
on_ok-Grows a panic more h = Grows-self a a refl refl refl

send_one-Grows :
    (env : Env) (a : Appender) (item : Result Request) → Grows a (send_one env a item).1
send_one-Grows env a item = on_ok-Grows a item _ λ q.
    on_ok-Grows a (env.send a.requests q) _
      λ u. record { new = q ∷ []; kept = refl; counted = omega arith; path = refl }

then_go-Grows :
    (env : Env) (item : ℕ → Result Request) (n r : ℕ) (a : Appender)
    (p : Result (Unit {0}) × Appender)
    → ((b : Appender) → Grows b (send_rows env item n r b).1)
    → Grows a p.1
    → Grows a (then_go (λ b. send_rows env item n r b) p).1
then_go-Grows env item n r a (ok u, b) ih g = Grows-trans a b _ g (ih b)
then_go-Grows env item n r a (err e, b) ih g = g
then_go-Grows env item n r a (panic, b) ih g = g

send_rows-Grows :
    (env : Env) (item : ℕ → Result Request) (n r : ℕ) (a : Appender)
    → Grows a (send_rows env item n r a).1
unfolding send_rows
send_rows-Grows env item zero r a = Grows-self a a refl refl refl
send_rows-Grows env item (suc n) r a =
    then_go-Grows env item n (suc r) a (send_one env a (item r))
      (λ b. send_rows-Grows env item n (suc r) b) (send_one-Grows env a (item r))

update-Grows : (env : Env) (fr : Frame) (a : Appender) → Grows a (update env fr a).1
unfolding update
update-Grows env fr a =
    on_ok-Grows a (index_val_func env fr) _
      λ f. send_rows-Grows env (update_row env a fr f) (pos_part (frame_len fr)) 0 a

put_all-Grows :
    (env : Env) (fr : Frame) (s : Schema) (cols : Dict ColImpl) (a : Appender)
    → Grows a (put_all env fr (s, cols) a).1
put_all-Grows env fr s cols a =
    on_ok-Grows a (update_schema (env.put_schema a.table_path) a.schema s) _ λ s'.
      let b = record a { schema = s' } in
      Grows-trans a b _ (Grows-self a b refl refl refl) (
        on_ok-Grows b (index_val_func env fr) _
          λ f. send_rows-Grows env (put_row env a.table_path cols f) (pos_part (frame_len fr)) 0 b)

add_by-Grows :
    (env : Env) (fr : Frame) (ns : List String) (a : Appender) (plain : Bool)
    → Grows a (add_by env fr ns a plain).1
add_by-Grows env fr ns a true =
    on_ok-Grows a (frame_schema fr ns) _ λ p. put_all-Grows env fr p.0 p.1 a
add_by-Grows env fr ns a false = update-Grows env fr a

add_named-Grows :
    (env : Env) (fr : Frame) (a : Appender) (ns : List String) → Grows a (add_named env fr a ns).1
add_named-Grows env fr a [] = Grows-self a a refl refl refl
add_named-Grows env fr a (n ∷ ns) = add_by-Grows env fr (n ∷ ns) a (str_eq a.expression "")

-- However Add ends, the requests that the container had accepted before stand, and the count of
-- requests has grown by exactly those that it has accepted since.
pub add-Grows : (env : Env) (fr : Frame) (a : Appender) → Grows a (add env fr a).1
unfolding add
add-Grows env fr a = on_ok-Grows a (names fr).0 _ λ ns. add_named-Grows env fr a ns

-- The requests for the rows from r on, the latest first, before those that were there.
abbrev pub pushed : (ℕ → Request) → (rounds r : ℕ) → List Request → List Request
pushed item zero r old = old
pushed item (suc n) r old = pushed item n (suc r) (item r ∷ old)

-- If every row yields its request and the container accepts each, the loop sends one request for
-- each row, in the order of the rows, and counts them.
pub send_rows-all :
    (env : Env) (item : ℕ → Result Request) (request : ℕ → Request) (n r : ℕ) (a : Appender)
    → ((i : ℕ) → r ≤ i → i < r + n → item i ≡ ok (request i))
    → ((old : List Request) (q : Request) → env.send old q ≡ ok tt)
    → send_rows env item n r a
      ≡ (ok tt, record a { sent = n + a.sent; requests = pushed request n r a.requests })
unfolding send_rows
send_rows-all env item request zero r a rows accept = ground arith
send_rows-all env item request (suc n) r a rows accept =
    let q = request r in
    let b = record a { sent = suc a.sent; requests = q ∷ a.requests } in
    rw (rows r (omega arith) (omega arith)) (
      rw (accept a.requests q) (
        send_rows-all env item request n (suc r) b (λ i l u. rows i (omega arith) (omega arith))
          accept
        ∙ ground arith))

-- An attribute's name has no blank and no colon.
abbrev pub IsClean : String → Type 0
IsClean String.[] = Unit
IsClean (String.◌∷◌ c s) = (code c ≢ b' ') × (code c ≢ b':') × IsClean s

valid_char-clean : (c : Char) → (code (valid_char c) ≢ b' ') × (code (valid_char c) ≢ b':')
valid_char-clean c = elim (Bool-cases (code c == b' ')) [
  | inl e ↦ rw e (λ h. omega arith, λ h. omega arith)
  | inr e ↦ elim (Bool-cases (code c == b':')) [
    | inl f ↦ rw (e, f) (λ h. omega arith, λ h. omega arith)
    | inr f ↦ rw (e, f) (λ h. ground arith, λ h. ground arith)
  ]
]

valid_char_id : (c : Char) → code c ≢ b' ' → code c ≢ b':' → valid_char c ≡ c
valid_char_id c h k = ground arith

-- A name without blanks and colons stands as it is.
valid_col_name_id : (s : String) → IsClean s → valid_col_name s ≡ s
unfolding valid_col_name
valid_col_name_id String.[] h = refl
valid_col_name_id (String.◌∷◌ c s) h = rw (valid_char_id c h.0 h.1) (rw (valid_col_name_id s h.2))

-- The attribute name of a column has no blank and no colon.
pub valid_col_name-IsClean : (s : String) → IsClean (valid_col_name s)
unfolding valid_col_name
valid_col_name-IsClean String.[] = tt
valid_col_name-IsClean (String.◌∷◌ c s) =
    ((valid_char-clean c).0, (valid_char-clean c).1, valid_col_name-IsClean s)
