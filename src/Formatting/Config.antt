-- ===== src/Formatting/Config.antt =====
-- `FormatConfig` of src/formatting.rs. Loading the file is not modelled.
use surql_parser.Prelude.{ℕ, zero, suc, Bool, true, false, [], ◌∷◌, ◌++◌, Text}

pub data IndentStyle : Type 0 where
  tab space : IndentStyle

pub record FormatConfig : Type 0 where
  pub uppercase_keywords : Bool
  pub indent_style : IndentStyle
  pub indent_width : ℕ
  pub newline_after_semicolon : Bool
  pub newline_before_where : Bool
  pub newline_before_set : Bool
  pub newline_before_from : Bool
  pub trailing_semicolon : Bool
  pub collapse_blank_lines : Bool
  pub max_blank_lines : ℕ

abbrev pub default_config : FormatConfig
default_config = record {
  uppercase_keywords = true;
  indent_style = IndentStyle.tab;
  indent_width = 4;
  newline_after_semicolon = false;
  newline_before_where = false;
  newline_before_set = false;
  newline_before_from = false;
  trailing_semicolon = false;
  collapse_blank_lines = false;
  max_blank_lines = 2;
}

-- `text.repeat(n)`
abbrev pub repeat : ℕ → Text → Text
repeat zero t = []
repeat (suc n) t = t ++ repeat n t

abbrev pub indent_text : IndentStyle → ℕ → Text
indent_text IndentStyle.tab width = b'\t' ∷ []
indent_text IndentStyle.space width = repeat width (b' ' ∷ [])

abbrev pub indent_str : FormatConfig → Text
indent_str config = indent_text config.indent_style config.indent_width
