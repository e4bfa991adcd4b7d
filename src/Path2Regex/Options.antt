-- ===== src/Path2Regex/Options.antt =====
-- `options_t` of web/restinio/restinio/path2regex/path2regex.hpp.
use prj.Prelude.{Bool, true, false, List, [], ◌∷◌, ◌++◌, Bytes, codes}
use prj.Path2Regex.Escape.{escape_string}

pub record Options : Type 0 where
  pub is_sensitive : Bool
  pub is_strict : Bool
  pub is_ending : Bool
  pub path_delimiter : Bytes
  pub path_delimiters : Bytes
  pub ends_with_any : List Bytes

abbrev pub default_options : Options
default_options = record {
  is_sensitive = false;
  is_strict = false;
  is_ending = true;
  path_delimiter = codes "/";
  path_delimiters = codes "./";
  ends_with_any = [];
}

abbrev pub sensitive : Bool → Options → Options
sensitive s o = record o { is_sensitive = s }

abbrev pub strict : Bool → Options → Options
strict p o = record o { is_strict = p }

abbrev pub ending : Bool → Options → Options
ending p o = record o { is_ending = p }

abbrev pub delimiter : Bytes → Options → Options
delimiter p o = record o { path_delimiter = p }

abbrev pub delimiters : Bytes → Options → Options
delimiters p o = record o { path_delimiters = p }

abbrev pub ends_with : List Bytes → Options → Options
ends_with p o = record o { ends_with_any = p }

abbrev pub make_delimiter : Bytes → Options → Bytes
make_delimiter [] o = o.path_delimiter
make_delimiter (c ∷ d) o = c ∷ d

-- The loop of `make_ends_with`.
ends : List Bytes → Bytes
ends [] = codes "$"
ends ([] ∷ es) = ends es
ends ((c ∷ e) ∷ es) = escape_string (c ∷ e) ++ (codes "|" ++ ends es)

unfoldable pub make_ends_with : Options → Bytes
unfolding ends escape_string
make_ends_with o = ends o.ends_with_any
