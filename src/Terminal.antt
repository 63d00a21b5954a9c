-- ===== src/Terminal.antt =====
-- The class `Terminal` of Kernel/terminal.hpp and Kernel/terminal.cpp: the cursor, the line that is
-- edited and the commands that were given, without the drawing. A text is a list of bytes.
pub mod Output
pub mod Inv
pub mod Typing
pub mod Args
mod Tests
use mikanos_copy.Common.{
  ℕ, zero, suc, ◌+◌, ◌-◌, Bool, true, false, not, List, [], ◌∷◌, Option, none, some, length, set,
  get_or, replicate, ltb, ◌&&◌, ◌==◌, if◌then◌else◌,
}
use mikanos_copy.Common.Int.{ℤ, pos, negsuc, ◌+ℤ◌, ◌-ℤ◌, le, lt}
use mikanos_copy.Fat.Directory.{c_string, same_string}

abbrev pub rows : ℕ
rows = 15

abbrev pub columns : ℕ
columns = 60

abbrev pub line_max : ℕ
line_max = 128

-- The cursor's column and row, and the buffers; `linebuf` has `line_max` bytes.
pub record Terminal : Type 0 where
  pub cursor_x : ℕ
  pub cursor_y : ℕ
  pub cursor_visible : Bool
  pub linebuf_index : ℕ
  pub linebuf : List ℕ
  pub cmd_history : List (List ℕ)
  pub cmd_history_index : ℤ

pub blink_cursor : Terminal → Terminal
blink_cursor t = record t { cursor_visible = not t.cursor_visible }

-- `newline` of `Print`, and the same steps in `InputKey`.
unfoldable pub newline : Terminal → Terminal
newline t = record t {
  cursor_x = 0;
  cursor_y = if ltb t.cursor_y (rows - 1) then t.cursor_y + 1 else t.cursor_y;
}

unfoldable pub print : Terminal → ℕ → Terminal
print t c =
    if c == 0x0a
    then newline t
    else if t.cursor_x == columns - 1
    then newline t
    else record t { cursor_x = t.cursor_x + 1 }

unfoldable pub print_all : Terminal → List ℕ → Terminal
print_all t [] = t
print_all t (c ∷ cs) = print_all (print t c) cs

-- `"> "`, and the names of two commands.
abbrev pub prompt : List ℕ
prompt = 0x3e ∷ 0x20 ∷ []

abbrev pub echo : List ℕ
echo = 0x65 ∷ 0x63 ∷ 0x68 ∷ 0x6f ∷ []

abbrev pub clear : List ℕ
clear = 0x63 ∷ 0x6c ∷ 0x65 ∷ 0x61 ∷ 0x72 ∷ []

-- The command and, behind the first space, its arguments.
unfoldable pub split_line : List ℕ → List ℕ × Option (List ℕ)
split_line [] = ([], none)
split_line (c ∷ cs) =
    let rest = split_line cs in if c == 0x20 then ([], some cs) else (c ∷ rest.0, rest.1)

-- What a command does that is neither `echo` nor `clear`: the text that it prints, and the line
-- buffer, in which a program's words are ended.
abbrev pub Run : Type 0
Run = (command : List ℕ) → (first_arg : Option (List ℕ)) → (linebuf : List ℕ) → List ℕ × List ℕ

-- The line of the buffer with its first space overwritten.
abbrev pub end_command : List ℕ → List ℕ
end_command linebuf = elim (split_line (c_string linebuf)).1 [
  | none ↦ linebuf
  | some rest ↦ set linebuf (length (split_line (c_string linebuf)).0) 0
]

unfoldable pub execute_line : Run → Terminal → Terminal
execute_line run t =
    let (command, first_arg) = split_line (c_string t.linebuf) in
    let ended = record t { linebuf = end_command t.linebuf } in
    let (text, linebuf) = run command first_arg ended.linebuf in
    if same_string command echo
    then print (print_all ended (elim first_arg [ none ↦ [] | some rest ↦ rest ])) 0x0a
    else if same_string command clear
    then record ended { cursor_y = 0 }
    else if same_string command []
    then ended
    else print_all (record ended { linebuf = linebuf }) text

-- `cmd_history_.pop_back()`.
abbrev pub pop_back : List (List ℕ) → List (List ℕ)
pop_back [] = []
pop_back (x ∷ []) = []
pop_back (x ∷ y ∷ ys) = x ∷ pop_back (y ∷ ys)

-- `strcpy(dst, src)`, with the bytes of `dst` after the terminating 0 kept. A write behind the end
-- of `dst` is left out.
unfoldable pub str_copy : (dst src : List ℕ) → List ℕ
str_copy [] src = []
str_copy (d ∷ ds) [] = 0 ∷ ds
str_copy (d ∷ ds) (c ∷ cs) = c ∷ str_copy ds cs

-- The index of the history after a step in the direction -1 or 1.
unfoldable pub step_index : (size : ℕ) (direction index : ℤ) → ℤ
step_index size (negsuc zero) index = if le (pos 0) index then index -ℤ pos 1 else index
step_index size (pos (suc zero)) index =
    if lt (index +ℤ pos 1) (pos size) then index +ℤ pos 1 else index
step_index size direction index = index

-- The command at the index, `""` at -1.
unfoldable pub history_text : List (List ℕ) → ℤ → List ℕ
history_text history (pos i) = c_string (get_or history i [])
history_text history (negsuc i) = []

unfoldable pub history_up_down : ℤ → Terminal → Terminal
history_up_down direction t =
    let index = step_index (length t.cmd_history) direction t.cmd_history_index in
    let history = history_text t.cmd_history index in
    record t {
      cmd_history_index = index;
      linebuf = str_copy t.linebuf history;
      linebuf_index = length history;
      cursor_x = length history + 1;
    }

-- The line as `InputKey` ends it, and the history with it.
abbrev pub end_line : Terminal → List ℕ
end_line t = set t.linebuf t.linebuf_index 0

abbrev pub remember : Terminal → List (List ℕ)
remember t = if ltb 0 t.linebuf_index then end_line t ∷ pop_back t.cmd_history else t.cmd_history

unfoldable pub input_key : Run → (keycode ascii : ℕ) → Terminal → Terminal
input_key run keycode ascii t =
    if ascii == 0x0a
    then (let ended = record t {
      linebuf = end_line t;
      cmd_history = remember t;
      linebuf_index = 0;
    } in
        print_all (execute_line run (newline ended)) prompt)
    else if ascii == 0x08
    then (if ltb 0 t.cursor_x
        then record t {
          cursor_x = t.cursor_x - 1;
          linebuf_index = if ltb 0 t.linebuf_index then t.linebuf_index - 1 else t.linebuf_index;
        }
        else t)
    else if keycode == 0x51
    then history_up_down (negsuc 0) t
    else if keycode == 0x52
    then history_up_down (pos 1) t
    else if not (ascii == 0) && ltb t.cursor_x (columns - 1) && ltb t.linebuf_index (line_max - 1)
    then record t {
      linebuf = set t.linebuf t.linebuf_index ascii;
      linebuf_index = t.linebuf_index + 1;
      cursor_x = t.cursor_x + 1;
    }
    else t

-- The constructor's state.
unfoldable pub init : Terminal
init =
    let t : Terminal = record {
      cursor_x = 0;
      cursor_y = 0;
      cursor_visible = false;
      linebuf_index = 0;
      linebuf = replicate line_max 0;
      cmd_history = [];
      cmd_history_index = negsuc 0;
    } in
    record (print_all t prompt) { cmd_history = replicate 8 (replicate line_max 0) }
