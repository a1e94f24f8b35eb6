-- ===== src/CurlDownloader/Headers.antt =====
-- CurlDownloader.cpp, Headers: one response header line, kept in a map from names to values.
pub mod Parameters
use filetransferdaemon.Prelude.{
  ℕ, Bool, Option, none, some, List, [], ◌∷◌, Text, Table, codes, length, insert, split_first,
  if◌then◌else◌,
}
use filetransferdaemon.Platform.{Library}
use filetransferdaemon.CurlDownloader.{CurlDownloader}

-- `d->headers[*lPt++]=*lPt++` on the two parts of a parameter. The side of the assignment that is
-- evaluated first reads the first part: the right side since C++17, either side before.
unfoldable pub store_parameter : Bool → List Text → Table Text → Table Text
store_parameter rhs_first (a ∷ b ∷ []) m = if rhs_first then insert b a m else insert a b m
store_parameter rhs_first _ m = m

unfoldable store_parameters : Library → Bool → List Text → Table Text → Table Text
unfolding store_parameter
store_parameters lib rhs_first [] m = m
store_parameters lib rhs_first (item ∷ items) m =
    store_parameters lib rhs_first items (store_parameter rhs_first (lib.split item b'=') m)

-- The items of a value that is split at `;`.
unfoldable pub store_items : Library → Bool → Text → Text → List Text → Table Text → Table Text
unfolding store_parameters
store_items lib rhs_first key value [] m = m
store_items lib rhs_first key value (item ∷ []) m = insert key value m
store_items lib rhs_first key value (item ∷ par ∷ pars) m =
    store_parameters lib rhs_first (par ∷ pars) (insert key item m)

store_line : Library → Bool → Option (Text × Text) → CurlDownloader → CurlDownloader
unfolding store_items
store_line lib rhs_first none c = c
store_line lib rhs_first (some (name, rest)) c =
    let value = lib.trimmed rest (codes " \r\n") in
    record c {
      headers =
          store_items lib rhs_first (lib.to_lower name) value (lib.split value b';') c.headers;
    }

unfoldable pub on_header : Library → Bool → Text → CurlDownloader → CurlDownloader × ℕ
unfolding store_line
on_header lib rhs_first line c =
    if c.cancel
    then (c, length line)
    else (store_line lib rhs_first (split_first b':' line) c, length line)
