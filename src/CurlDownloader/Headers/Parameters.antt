-- ===== src/CurlDownloader/Headers/Parameters.antt =====
-- CurlDownloader.cpp, Headers: what a stored line can be looked up as.
use filetransferdaemon.Prelude.{
  ◌≡◌, refl, Bool, true, false, some, [], ◌∷◌, Text, Table, codes, text_eq, text_eq_refl, lookup,
  lookup-insert, split_first, if◌then◌else◌,
}
use filetransferdaemon.Platform.{Library}
use filetransferdaemon.CurlDownloader.{CurlDownloader}
use filetransferdaemon.CurlDownloader.Headers.{store_parameter, store_items, on_header}

-- A header line `name: value` whose value has one item is found under the lower-case name, and
-- every other name as before, on a download that is not cancelled.
lookup-on_header :
    (lib : Library) (rhs_first : Bool) (c : CurlDownloader) (line name rest item key : Text)
    → split_first b':' line ≡ some (name, rest)
    → lib.split (lib.trimmed rest (codes " \r\n")) b';' ≡ item ∷ []
    → c.cancel ≡ false
    → lookup key (on_header lib rhs_first line c).0.headers ≡ (
        if text_eq (lib.to_lower name) key
        then some (lib.trimmed rest (codes " \r\n"))
        else lookup key c.headers)
unfolding on_header store_items
lookup-on_header lib rhs_first c line name rest item key h k open_now =
    rw (open_now, h, k)
      (lookup-insert (lib.to_lower name) key (lib.trimmed rest (codes " \r\n")) c.headers)

-- A parameter whose name and value differ is found under its name if the left side of the
-- assignment is evaluated first. If the right side is, it is stored the other way round: under the
-- value, and what was stored under the name stays.
store_parameter_order :
    (a b : Text) (m : Table Text)
    → text_eq b a ≡ false
    → (lookup a (store_parameter false (a ∷ b ∷ []) m) ≡ some b)
      × (lookup b (store_parameter true (a ∷ b ∷ []) m) ≡ some a)
      × (lookup a (store_parameter true (a ∷ b ∷ []) m) ≡ lookup a m)
unfolding store_parameter
store_parameter_order a b m h = (
  rw (lookup-insert a a b m, text_eq_refl a) refl,
  rw (lookup-insert b b a m, text_eq_refl b) refl,
  rw (lookup-insert b a a m, h) refl,
)
