-- ===== src/GoText.antt =====
-- The functions of Go's `strings` package whose effect on every code point is Unicode's: they are
-- the fields of a record that the operations take.
use bindings.Common.{String}

pub record GoText : Type 0 where
  pub to_lower : String → String
  pub to_upper : String → String
  pub trim_space : String → String
