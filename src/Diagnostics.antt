-- ===== src/Diagnostics.antt =====
-- compiler/kyna_diagnostics/include/kyna/diagnostics/diagnostic.hpp: `Diagnostic`, with the fields
-- that the scanner, the validators and the machine set, and the spans of
-- compiler/kyna_source/include/kyna/source/source_span.hpp.
pub mod Decides
use kyna.Base.{ℕ, Bool, String}

pub record SourceSpan : Type 0 where
  pub source : ℕ
  pub start_byte : ℕ
  pub end_byte : ℕ
  pub line : ℕ
  pub column : ℕ
  pub end_line : ℕ
  pub end_column : ℕ

-- `SourceSpan()`.
abbrev pub unknown_span : SourceSpan
unknown_span = record {
  source = 0;
  start_byte = 0;
  end_byte = 0;
  line = 1;
  column = 1;
  end_line = 1;
  end_column = 1;
}

pub record Diagnostic : Type 0 where
  pub message : String
  pub location : SourceSpan
  pub warning : Bool
  pub code : String
  pub category : String
  pub help : String
