-- ===== src/Terminal/Tests.antt =====
-- Keys at a terminal of Kernel/terminal.cpp, and the arguments of a program.
use mikanos_copy.Common.{ℕ, true, ◌≡◌, refl, arith, List, [], ◌∷◌, some}
use mikanos_copy.Error.{Error}
use mikanos_copy.Fat.Directory.{c_string}
use mikanos_copy.Terminal.{Run, end_line, input_key, init, print_all, print, newline}
use mikanos_copy.Terminal.Output.{KeepsLength}
use mikanos_copy.Terminal.Inv.{IsValid, input_keys, init-IsValid, terminal-IsValid}
use mikanos_copy.Terminal.Typing.{AreCharacters, text, recalled_line}
use mikanos_copy.Terminal.Args.{make_arg_vector}
use mikanos_copy.Terminal.Args.Words.{word_starts, joined, filled, make_arg_vector_rests}

-- Commands that print one line.
abbrev run_line : Run
run_line command first_arg linebuf = (0x6f ∷ 0x6b ∷ 0x0a ∷ [], linebuf)

run_line-KeepsLength : KeepsLength run_line
run_line-KeepsLength command first_arg linebuf = refl

-- "ls", then Enter, the arrow up and a step back.
terminal-IsValid_example : IsValid (
    input_keys run_line
      ((0x0f, 0x6c) ∷ (0x16, 0x73) ∷ (0x28, 0x0a) ∷ (0x52, 0) ∷ (0x2a, 0x08) ∷ [])
      init)
terminal-IsValid_example =
    terminal-IsValid run_line
      ((0x0f, 0x6c) ∷ (0x16, 0x73) ∷ (0x28, 0x0a) ∷ (0x52, 0) ∷ (0x2a, 0x08) ∷ [])
      run_line-KeepsLength

-- "ls"
abbrev ls_keys : List (ℕ × ℕ)
ls_keys = (0x0f, 0x6c) ∷ (0x16, 0x73) ∷ []

ls_keys-AreCharacters : AreCharacters ls_keys
unfolding AreCharacters
ls_keys-AreCharacters = (omega arith, (omega arith, tt))

recalled_line_example :
    (c_string (end_line (input_keys run_line ls_keys init)) ≡ text ls_keys)
    × (c_string
          (input_key run_line 0x52 0
            (input_key run_line 0 0x0a (input_keys run_line ls_keys init))).linebuf
        ≡ text ls_keys)
unfolding init print_all print newline
recalled_line_example =
    recalled_line run_line ls_keys init run_line-KeepsLength init-IsValid refl refl
      ls_keys-AreCharacters (omega arith) (omega arith)

-- "rpn 1 2 +": the first argument is "1 2 +".
abbrev rpn : List ℕ
rpn = 0x72 ∷ 0x70 ∷ 0x6e ∷ []

abbrev one_two_plus : List ℕ
one_two_plus = 0x31 ∷ 0x20 ∷ 0x32 ∷ 0x20 ∷ 0x2b ∷ []

make_arg_vector_rests_example :
    make_arg_vector 32 3840 [] rpn (some one_two_plus)
    ≡ some (Error.success, filled (rpn ∷ word_starts true one_two_plus))
unfolding word_starts joined
make_arg_vector_rests_example = make_arg_vector_rests 32 3840 [] rpn one_two_plus (omega arith)

rpn_words :
    word_starts true one_two_plus ≡ one_two_plus ∷ (0x32 ∷ 0x20 ∷ 0x2b ∷ []) ∷ (0x2b ∷ []) ∷ []
unfolding word_starts
rpn_words = refl
