-- ===== src/Sql.antt =====
-- sql.go: the query of a SELECT statement. The parser of the vendored library is a parameter; the
-- statement that it gives has what ParseSQL looks at.
use frames.Base.{List, [], ◌∷◌, String, Option, none, some, Error, Result, ok, err, ◌>>=◌}

-- A table expression of FROM: a table name, another aliased expression, or anything else.
pub data From : Type 0 where
  table : String → From
  aliased : From
  other : From

-- An expression of SELECT: with an AS, a column name, another expression, or anything else.
pub data Expr : Type 0 where
  with_alias : Expr
  col_name : String → Expr
  value : Expr
  other : Expr

-- A SELECT statement, its WHERE and GROUP BY as the trimmed text that the parser prints.
pub record Select : Type 0 where
  pub from : List From
  pub exprs : List Expr
  pub where_text : Option String
  pub group_by : Option String

pub data Statement : Type 0 where
  select : Select → Statement
  other : Statement

-- Query
pub record Query : Type 0 where
  pub table : String
  pub columns : List String
  pub filter : String
  pub group_by : String

abbrev the_select : Statement → Result Select
the_select (select s) = ok s
the_select Statement.other = err Error.bad_query

abbrev the_table : List From → Result String
the_table (From.table t ∷ []) = ok t
the_table _ = err Error.bad_query

-- The loop over the SELECT expressions.
unfoldable pub query_columns : List Expr → Result (List String)
query_columns [] = ok []
query_columns (col_name c ∷ es) = do rest ← query_columns es; ok (c ∷ rest)
query_columns (_ ∷ es) = err Error.bad_query

abbrev some_columns : List String → Result (List String)
some_columns [] = err Error.bad_query
some_columns (c ∷ cs) = ok (c ∷ cs)

abbrev text_of : Option String → String
text_of (some t) = t
text_of none = ""

-- ParseSQL
unfoldable pub parse_sql : (String → Result Statement) → String → Result Query
unfolding query_columns
parse_sql parse sql = do
  stmt ← parse sql
  slct ← the_select stmt
  table_name ← the_table slct.from
  found ← query_columns slct.exprs
  columns ← some_columns found
  ok (record {
    table = table_name;
    columns = columns;
    filter = text_of slct.where_text;
    group_by = text_of slct.group_by;
  })
