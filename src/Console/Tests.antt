-- ===== src/Console/Tests.antt =====
-- Two lines that are written to a console of Kernel/console.cpp.
use mikanos_copy.Common.{ℕ, ◌≡◌, refl, List, [], ◌∷◌}
use mikanos_copy.Console.{init, put_string, put_char, newline}
use mikanos_copy.Console.Refine.{Shows, add_chars, add_char, no_text, put_string_refines}

-- "ab", and "c" on the next line.
abbrev two_lines : List ℕ
two_lines = 0x61 ∷ 0x62 ∷ 0x0a ∷ 0x63 ∷ []

put_string_refines_example : Shows (put_string init two_lines) (add_chars no_text two_lines)
put_string_refines_example = put_string_refines two_lines

two_lines_row : (put_string init two_lines).cursor_row ≡ 1
unfolding put_string put_char newline
two_lines_row = refl

two_lines_ended : (add_chars no_text two_lines).ended ≡ (0x61 ∷ 0x62 ∷ []) ∷ []
unfolding add_chars add_char
two_lines_ended = refl
