-- ===== src/Api/Requests.antt =====
-- api/api.go: which requests reach a backend, and what a write reports.
use frames.Base.{
  ℤ, pos, negsuc, ◌+ℤ◌, ◌≡◌, false, List, [], ◌∷◌, ◌++◌, String, none, some, Result, ok, is_ok, ◌⊎◌,
  >>=-eq-ok, wrapf, wrapf-eq-ok, arith, eq_iff, length,
}
use frames.Frame.{Frame, frame_len}
use frames.Sql.{Statement, Query, parse_sql}
use frames.Api.{ReadRequest, Written, populate_query}

-- A query fills the request only where the request was empty, and the request then has the table,
-- the columns, the filter and the grouping of the query, and is otherwise as it was.
populate_query_lem :
    (parse : String → Result Statement) (r r' : ReadRequest)
    → populate_query parse r ≡ ok r'
    → (q : Query) × (parse_sql parse r.query ≡ ok q)
      × (r.table ≡ "")
      × (r.columns ≡ none)
      × (r.filter ≡ "")
      × (r.group_by ≡ "")
      × (r' ≡ record r {
        table = q.table;
        columns = some q.columns;
        filter = q.filter;
        group_by = q.group_by;
      })
unfolding populate_query
populate_query_lem parse r r' h =
    let (q, e, h₁) = >>=-eq-ok (wrapf "bad SQL query" (parse_sql parse r.query)) _ h in
    (
      q,
      wrapf-eq-ok "bad SQL query" (parse_sql parse r.query) e,
      ground (arith, eq_iff r.table ""),
      ground arith,
      ground (arith, eq_iff r.filter ""),
      ground (arith, eq_iff r.group_by ""),
      ground arith,
    )

abbrev pub total_rows : List Frame → ℤ
total_rows [] = pos 0
total_rows (f ∷ fs) = frame_len f +ℤ total_rows fs

-- The appender took these frames, and stopped there with an error or at the end of the channel.
abbrev pub Accounts : ℤ → ℤ → List Frame → Written → Type 0
Accounts n_frames n_rows frames (nf, nr, r) =
    (taken rest : List Frame) × (frames ≡ taken ++ rest)
    × (nf ≡ n_frames +ℤ pos (length taken))
    × (nr ≡ n_rows +ℤ total_rows taken)
    × ((rest ≡ []) ⊎ (is_ok r ≡ false))

abbrev pub Refused : Written → Type 0
Refused (nf, nr, r) = (nf ≡ negsuc 0) × (nr ≡ negsuc 0) × (is_ok r ≡ false)
