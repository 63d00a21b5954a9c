-- ===== src/Terminal/Args.antt =====
-- `MakeArgVector` of Kernel/terminal.cpp: the arguments of a program, copied into a buffer.
pub mod Words
use mikanos_copy.Common.{
  ℕ, zero, suc, ◌+◌, ◌-◌, Bool, true, false, List, [], ◌∷◌, ◌++◌, Option, none, some, length, leb,
  not, ◌&&◌, ◌||◌, ◌==◌, if◌then◌else◌,
}
use mikanos_copy.Error.{Error, is_error}

-- `argv` holds positions of `argbuf`, whose bytes up to `argbuf_index` are given.
pub record ArgVector : Type 0 where
  pub argc : ℕ
  pub argv : List ℕ
  pub argbuf_index : ℕ
  pub argbuf : List ℕ

-- `isspace`: a blank, or one of the bytes 9 to 13.
abbrev pub isspace : ℕ → Bool
isspace c = (c == 0x20) || (leb 9 c && leb c 13)

-- `while(isspace(p[0])) p++`, and the loop over a word. The end of the list is the terminating 0.
unfoldable pub skip_spaces : List ℕ → List ℕ
skip_spaces [] = []
skip_spaces (c ∷ cs) = let rest = skip_spaces cs in if isspace c then rest else c ∷ cs

unfoldable pub skip_word : List ℕ → List ℕ
skip_word [] = []
skip_word (c ∷ cs) = let rest = skip_word cs in if isspace c then c ∷ cs else rest

module _ (argv_len argbuf_len : ℕ) where
  -- `strcpy` writes the string and a 0.
  unfoldable pub push_to_argv : List ℕ → ArgVector → Error × ArgVector
  push_to_argv s a =
      if leb argv_len a.argc || leb argbuf_len a.argbuf_index then (Error.full, a) else (
        Error.success,
        record {
          argc = a.argc + 1;
          argv = a.argv ++ (a.argbuf_index ∷ []);
          argbuf_index = a.argbuf_index + length s + 1;
          argbuf = a.argbuf ++ (s ++ (0 ∷ []));
        },
      )

  -- `none` would be a loop out of fuel.
  unfoldable pub arg_loop : (fuel : ℕ) (p : List ℕ) → ArgVector → Option (Error × ArgVector)
  arg_loop zero p a = none
  arg_loop (suc fuel) p a = elim (skip_spaces p) [
    | [] ↦ some (Error.success, a)
    | c ∷ cs ↦
        let (err, pushed) = push_to_argv (c ∷ cs) a in
        let more : Option (Error × ArgVector) = elim (skip_word (c ∷ cs)) [
          | [] ↦ some (Error.success, pushed)
          | d ∷ ds ↦ arg_loop fuel ds pushed
        ] in
        if is_error err then some (err, a) else more
  ]

  -- `at_null` is the string that stands at address 0: without arguments `first_arg` is `nullptr`,
  -- and the loop reads from there.
  unfoldable pub make_arg_vector :
      (at_null command : List ℕ) (first_arg : Option (List ℕ)) → Option (Error × ArgVector)
  make_arg_vector at_null command first_arg =
      let empty : ArgVector = record { argc = 0; argv = []; argbuf_index = 0; argbuf = [] } in
      let (err, pushed) = push_to_argv command empty in
      let p : List ℕ = elim first_arg [ none ↦ at_null | some s ↦ s ] in
      let rest = arg_loop (suc (length p)) p pushed in
      if is_error err then some (err, empty) else rest
