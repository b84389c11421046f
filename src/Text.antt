-- ===== src/Text.antt =====
-- The text operations of Python that the program uses to normalise its inputs, over the code
-- points of a text (ASCII: Python also maps letters and strips blanks beyond it).
mod Ops
mod Normal
pub mod Uuid
unfoldable pub use Ops.{
  Str, codes, is_space, to_upper, to_lower, upper, lower, strip, sql_trim, str_eq, length, all_of,
  is_empty, is_letter,
}
pub use Normal.*
