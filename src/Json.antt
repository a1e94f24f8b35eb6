-- ===== src/Json.antt =====
-- The values that the program exchanges through the vendored Json library.
-- A reply is built as a value of `Json`. A request is known by what the library's calls on it
-- return: `is_member k` is req.isMember(k), `is_string k` is req[k].isString(), and so on.
-- `none` of `as_uint` and `as_int` is the std::runtime_error that the call throws.
use filetransferdaemon.Prelude.{
  ℕ, ℤ, Text, Table, Option, none, some, Bool, true, false, lookup, [],
}

mutual
  pub data Json : Type 0 where
    null : Json
    int : ℤ → Json
    ulong : ℕ → Json
    real : ℕ → Json
    str : Text → Json
    boolean : Bool → Json
    arr : Items → Json
    object : Members → Json

  pub data Items : Type 0 where
    nil : Items
    cons : Json → Items → Items

  pub data Members : Type 0 where
    end : Members
    member : Text → Json → Members → Members

pub record Request : Type 0 where
  pub is_member : Text → Bool
  pub is_string : Text → Bool
  pub is_integral : Text → Bool
  pub is_int : Text → Bool
  pub as_string : Text → Text
  pub as_uint : Text → Option ℕ
  pub as_int : Text → Option ℤ

is_some : Option Text → Bool
is_some none = false
is_some (some v) = true

or_empty : Option Text → Text
or_empty none = []
or_empty (some v) = v

-- An object with string members only, as `rep["user"]=...` builds it.
unfoldable pub text_object : Table Text → Request
unfolding is_some or_empty
text_object m = record {
  is_member = λ k. is_some (lookup k m);
  is_string = λ k. is_some (lookup k m);
  is_integral = λ k. false;
  is_int = λ k. false;
  as_string = λ k. or_empty (lookup k m);
  as_uint = λ k. none;
  as_int = λ k. none;
}
