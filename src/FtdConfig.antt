-- ===== src/FtdConfig.antt =====
-- bubba-ftd/src/FtdConfig.h and FtdConfig.cpp: the configuration with defaults. What EConfig of
-- libeutils answers is a parameter; `none` is the std::runtime_error that it throws.
use filetransferdaemon.Prelude.{ℤ, Bool, Option, none, some, Text}

pub record FtdConfig : Type 0 where
  pub get_string : Text → Text → Option Text
  pub get_value : Text → Text → Option Text
  pub get_bool : Text → Text → Option Bool
  pub get_integer : Text → Text → Option ℤ

abbrev pub or_default : {A : Type 0} → A → Option A → A
or_default def none = def
or_default def (some x) = x

unfoldable pub get_string_or_default : FtdConfig → Text → Text → Text → Text
get_string_or_default cfg group key def = or_default def (cfg.get_string group key)

unfoldable get_value_or_default : FtdConfig → Text → Text → Text → Text
get_value_or_default cfg group key def = or_default def (cfg.get_value group key)

unfoldable pub get_bool_or_default : FtdConfig → Text → Text → Bool → Bool
get_bool_or_default cfg group key def = or_default def (cfg.get_bool group key)

unfoldable pub get_integer_or_default : FtdConfig → Text → Text → ℤ → ℤ
get_integer_or_default cfg group key def = or_default def (cfg.get_integer group key)
