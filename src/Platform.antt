-- ===== src/Platform.antt =====
-- What the daemon takes from code outside bubba-ftd/src: the string and URL functions of libeutils,
-- as functions on texts, and the calls on the operating system that leave a trace, as effects.
use filetransferdaemon.Prelude.{ℕ, Text, List}
use filetransferdaemon.Downloader.{Slot}

-- `url_text u` is GetUrl() after SetUrl(u); `scheme`, `extension` and `path` read the same object.
pub record Library : Type 0 where
  pub url_text : Text → Text
  pub scheme : Text → Text
  pub extension : Text → Text
  pub url_path : Text → Text
  pub to_lower : Text → Text
  pub trimmed : Text → Text → Text
  pub split : Text → ℕ → List Text
  pub url_decode : Text → Text

pub data Effect : Type 0 where
  unlink : Text → Effect
  mkdir : Text → Effect
  chown : Text → ℕ → ℕ → Effect
  chmod : Text → ℕ → Effect
  rename : Text → Text → Effect
  copy_file : Text → Text → Effect
  flush : Effect
  mk_path : Text → Effect
  chown_users : Text → ℕ → Effect
  write_file : Text → Effect
  add_watch : Text → Effect
  emit : Slot → Effect
  call : ℕ → ℕ → Effect

-- How a C++ function ends: it returns, throws a std::runtime_error object, or throws a pointer to
-- one. The text is what().
pub data Outcome (A : Type 0) : Type 0 where
  returned : A → Outcome A
  thrown : Text → Outcome A
  thrown_pointer : Text → Outcome A
