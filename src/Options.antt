-- ===== src/Options.antt =====
-- src/options.rs: the options of the reachability analysis and of the format version.
use ast_serialize.Common.{ℕ, List, ◌++◌, Text, codes, []}

pub record Options : Type 0 where
  pub python_version : ℕ × ℕ
  pub platform : Text
  pub always_true : List Text
  pub always_false : List Text
  pub cache_version : ℕ

-- `Options::default`
abbrev pub default_options : Options
default_options = record {
  python_version = (3, 12);
  platform = codes "linux";
  always_true = [];
  always_false = [];
  cache_version = 7;
}

abbrev pub cv_handler_locations : ℕ
cv_handler_locations = 1

abbrev pub cv_raw_expression_type_notes : ℕ
cv_raw_expression_type_notes = 2

abbrev pub cv_import_flags : ℕ
cv_import_flags = 3

abbrev pub cv_dict_key_opt : ℕ
cv_dict_key_opt = 4

abbrev pub cv_unicode_surrogate : ℕ
cv_unicode_surrogate = 5

abbrev pub cv_func_type_comment_flag : ℕ
cv_func_type_comment_flag = 6

abbrev pub cv_full_type_comments : ℕ
cv_full_type_comments = 7

unfoldable pub extend_always_true : List Text → Options → Options
extend_always_true names o = record o { always_true = o.always_true ++ names }

unfoldable pub extend_always_false : List Text → Options → Options
extend_always_false names o = record o { always_false = o.always_false ++ names }
