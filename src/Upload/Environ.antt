-- ===== src/Upload/Environ.antt =====
-- upload.cpp, parse_environ: the environment of the CGI program as a map.
use filetransferdaemon.Prelude.{
  ◌≡◌, refl, ◌∙◌, ap, Bool, false, ◌||◌, Option, none, some, List, [], ◌∷◌, ◌++◌, map, Text, Table,
  text_eq, insert, lookup, lookup-insert, split_first, ◌==◌, if◌then◌else◌, arith, All,
}

-- One row. Without a `=` find answers npos, which is -1 as an int: both parts are the whole row.
unfoldable parse_row : Text → Table Text → Table Text
parse_row row env = elim (split_first b'=' row) [
  | none ↦ insert row row env
  | some (k, v) ↦ insert k v env
]

unfoldable pub parse_environ : List Text → Table Text → Table Text
unfolding parse_row
parse_environ [] env = env
parse_environ (row ∷ rows) env = parse_environ rows (parse_row row env)

-- A row of the environment.
abbrev pub row_of : Text × Text → Text
row_of (k, v) = k ++ b'=' ∷ v

abbrev has_equals : Text → Bool
has_equals [] = false
has_equals (c ∷ cs) = c == b'=' || has_equals cs

-- The value of the last row with a name.
abbrev pub last_value : Text → List (Text × Text) → Option Text → Option Text
last_value k [] found = found
last_value k ((j, v) ∷ rows) found = last_value k rows (if text_eq j k then some v else found)

split_first-row :
    (k v : Text) → has_equals k ≡ false → split_first b'=' (row_of (k, v)) ≡ some (k, v)
unfolding split_first
split_first-row [] v h = refl
split_first-row (c ∷ cs) v h = ground (arith, split_first-row cs v)

parse_row-row :
    (k v : Text) (env : Table Text)
    → has_equals k ≡ false
    → parse_row (row_of (k, v)) env ≡ insert k v env
unfolding parse_row
parse_row-row k v env h = rw (split_first-row k v h, parse_row) refl

lookup-parse_environ_from :
    (k : Text) (rows : List (Text × Text)) (env : Table Text)
    → All (λ r. has_equals r.0 ≡ false) rows
    → lookup k (parse_environ (map row_of rows) env) ≡ last_value k rows (lookup k env)
unfolding parse_environ parse_row
lookup-parse_environ_from k [] env h = refl
lookup-parse_environ_from k ((j, v) ∷ rows) env (h, hs) =
    ap (λ e. lookup k (parse_environ (map row_of rows) e)) (parse_row-row j v env h)
    ∙ lookup-parse_environ_from k rows (insert j v env) hs
    ∙ ap (last_value k rows) (lookup-insert j k v env)

-- Of an environment whose names have no `=` in them, parse_environ keeps for each name the value of
-- its last row, up to the end of the row, and knows no other name.
pub lookup-parse_environ :
    (k : Text) (rows : List (Text × Text))
    → All (λ r. has_equals r.0 ≡ false) rows
    → lookup k (parse_environ (map row_of rows) []) ≡ last_value k rows none
unfolding lookup
lookup-parse_environ k rows h = lookup-parse_environ_from k rows [] h
