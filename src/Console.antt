-- ===== src/Console.antt =====
-- The class `Console` of Kernel/console.hpp and Kernel/console.cpp: its buffer of text and its cursor,
-- without the drawing.
pub mod Rows
pub mod Refine
mod Tests
use mikanos_copy.Common.{
  ℕ, zero, suc, ◌+◌, ◌-◌, Bool, true, false, List, [], ◌∷◌, set, get_or, replicate, ltb, ◌==◌,
  if◌then◌else◌,
}

abbrev pub rows : ℕ
rows = 25

abbrev pub columns : ℕ
columns = 80

-- `has_window` says whether `window_` is set.
pub record Console : Type 0 where
  pub has_window : Bool
  pub layer_id : ℕ
  pub buffer : List (List ℕ)
  pub cursor_row : ℕ
  pub cursor_column : ℕ

abbrev pub blank_row : List ℕ
blank_row = replicate (columns + 1) 0

-- The constructor.
abbrev pub init : Console
init = record {
  has_window = false;
  layer_id = 0;
  buffer = replicate rows blank_row;
  cursor_row = 0;
  cursor_column = 0;
}

-- `Clear` leaves the cursor where it is.
pub clear : Console → Console
clear k = record k { buffer = replicate rows blank_row }

pub set_writer : Console → (same : Bool) → Console
set_writer k same = if same then k else record k { has_window = false }

pub set_window : Console → (same : Bool) → Console
set_window k same = if same then k else record k { has_window = true }

pub set_layer_id : Console → ℕ → Console
set_layer_id k layer_id = record k { layer_id = layer_id }

-- The loop of `Newline` that copies each row to the one above.
unfoldable pub copy_rows : (rounds row : ℕ) → List (List ℕ) → List (List ℕ)
copy_rows zero row buffer = buffer
copy_rows (suc rounds) row buffer =
    copy_rows rounds (suc row) (set buffer row (get_or buffer (suc row) []))

-- With a window, only its pixels are moved.
unfoldable pub newline : Console → Console
newline k =
    if ltb k.cursor_row (rows - 1)
    then record k { cursor_column = 0; cursor_row = k.cursor_row + 1 }
    else if k.has_window
    then record k { cursor_column = 0 }
    else record k {
      cursor_column = 0;
      buffer = set (copy_rows (rows - 1) 0 k.buffer) (rows - 1) blank_row;
    }

-- One round of the loop of `PutString`.
unfoldable pub put_char : Console → ℕ → Console
put_char k c =
    if c == 0x0a
    then newline k
    else if ltb k.cursor_column columns
    then record k {
      buffer = set k.buffer k.cursor_row (set (get_or k.buffer k.cursor_row []) k.cursor_column c);
      cursor_column = k.cursor_column + 1;
    }
    else k

unfoldable pub put_string : Console → List ℕ → Console
put_string k [] = k
put_string k (c ∷ cs) = put_string (put_char k c) cs
