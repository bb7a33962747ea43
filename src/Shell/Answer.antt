-- ===== src/Shell/Answer.antt =====
-- What kernel/shell/shell.c promises for a command line: which function answers it, and what is printed.
use koiz_os.Base.{
  ℕ, suc, ◌<◌, ◌≡◌, inl, inr, Option, some, none, List, [], ◌∷◌, ◌++◌, if◌then◌else◌, length, refl,
  ap, ◌∙◌, u32_mod, Bool-cases,
}
use koiz_os.Base.Text.{codes}
use koiz_os.Kernel.{Result, ok, ◌>>=◌}
use koiz_os.Kernel.Memory.{Memory}
use koiz_os.Strings.Compare.{Text}
use koiz_os.Commands.{
  World, Junk, memory, print, text, sh_ls, sh_read, sh_write, sh_free, sh_slabinfo, sh_ps, sh_exec,
  sh_execbg, sh_sched,
}
use koiz_os.Commands.Files.{string_at-Text}
use koiz_os.Shell.{
  Command, command_name, shell_cmds, Places, Shell, run_command, dispatch, print_prefix,
  with_memory,
}
use koiz_os.Shell.Split.{Word}
use koiz_os.Shell.Split.Arguments.{line_of}
use koiz_os.Shell.Line.{same_text, named}

-- A function of the shell: the number of arguments, and where they lie.
abbrev Run : Type 0
Run = Junk → ℕ → List ℕ → World → Result (ℕ × World)

-- The functions by the names that are typed for them.
abbrev functions : List (List ℕ × Run)
functions =
    (codes "ls", λ junk argc argv w. sh_ls junk w)
    ∷ (codes "write", sh_write)
    ∷ (codes "read", sh_read)
    ∷ (codes "slabinfo", λ junk argc argv w. ok (sh_slabinfo w))
    ∷ (codes "free", λ junk argc argv w. ok (sh_free w))
    ∷ (codes "ps", λ junk argc argv w. ok (sh_ps w))
    ∷ (codes "exec", λ junk argc argv w. ok (sh_exec w))
    ∷ (codes "execbg", sh_execbg)
    ∷ (codes "sched", λ junk argc argv w. sh_sched w)
    ∷ []

abbrev look_up : List ℕ → List (List ℕ × Run) → Option Run
look_up name [] = none
look_up name ((known, run) ∷ others) =
    if same_text name known then some run else look_up name others

-- The function of the name is called; for an unknown name the line is shown.
abbrev respond : Option Run → List ℕ → Junk → ℕ → List ℕ → World → Result World
respond (some run) line junk argc argv w = run junk argc argv w >>= λ (res, w'). ok w'
respond none line junk argc argv w =
    ok (print (text (codes "unknown command: " ++ line ++ codes " \n")) w)

-- A new line is printed, the function of the first word is called with all words as arguments, and
-- the prefix of the next line is printed. The arguments lie in memory.
abbrev pub answer : List ℕ → List Word → Junk → List ℕ → Memory → World → Result Shell
answer first ws junk argv mem' w =
    respond (look_up first functions) (line_of first ws) junk (suc (length ws)) argv
      (print (text (codes "\n")) (with_memory mem' w))
    >>= λ w2. ok (record { world = print (text (codes "shell# ")) w2; command_buffer_ptr = 0 })

-- The commands of a table and the functions of a list, in the same order.
abbrev SameFunctions : List Command → List (List ℕ × Run) → Type 0
SameFunctions [] [] = Unit {0}
SameFunctions [] (f ∷ fs) = ⊥
SameFunctions (c ∷ cs) [] = ⊥
SameFunctions (c ∷ cs) (f ∷ fs) =
    (command_name c ≡ f.0)
    × ((junk : Junk) (argc : ℕ) (argv : List ℕ) (w : World)
        → run_command c junk argc argv w ≡ f.1 junk argc argv w)
    × SameFunctions cs fs

shell_cmds-SameFunctions : SameFunctions shell_cmds functions
unfolding run_command
shell_cmds-SameFunctions = (
  refl,
  λ junk argc argv w. refl,
  (
    refl,
    λ junk argc argv w. refl,
    (
      refl,
      λ junk argc argv w. refl,
      (
        refl,
        λ junk argc argv w. refl,
        (
          refl,
          λ junk argc argv w. refl,
          (
            refl,
            λ junk argc argv w. refl,
            (
              refl,
              λ junk argc argv w. refl,
              (refl, λ junk argc argv w. refl, (refl, λ junk argc argv w. refl, tt)),
            ),
          ),
        ),
      ),
    ),
  ),
)

module _ (places : Places) (junk : Junk) (first : List ℕ) (line argv : List ℕ) (w : World)
    (few : length line < u32_mod) (shown : Text (memory w) places.command_buffer line) where
  dispatch-respond :
      (cs : List Command) (fs : List (List ℕ × Run))
      → SameFunctions cs fs
      → dispatch places (named first cs) junk argv w
        ≡ respond (look_up first fs) line junk (length argv) argv w
  unfolding dispatch
  dispatch-respond [] [] same =
      ap (λ r. r >>= λ xs. ok (print (text (codes "unknown command: " ++ xs ++ codes " \n")) w))
        (string_at-Text u32_mod places.command_buffer line (memory w) few shown)
  dispatch-respond [] (f ∷ fs) same = elim same [ ]
  dispatch-respond (c ∷ cs) [] same = elim same [ ]
  dispatch-respond (c ∷ cs) ((known, run) ∷ fs) (name, runs, same) =
      let test : same_text first (command_name c) ≡ same_text first known =
        ap (same_text first) name in
      elim (Bool-cases (same_text first known)) [
        | inl hit ↦
            rw (test, hit) (ap (λ r. r >>= λ (res, w'). ok w') (runs junk (length argv) argv w))
        | inr miss ↦ rw (test, miss) (dispatch-respond cs fs same)
      ]

-- The rest of `shell_execute_command`, once the line is split.
abbrev pub finish : Places → Option Command → Junk → List ℕ → Memory → World → Result Shell
finish places found junk argv mem' w =
    dispatch places found junk argv (print (text (codes "\n")) (with_memory mem' w)) >>= λ w2.
    ok (record { world = print_prefix w2; command_buffer_ptr = 0 })

-- With the line in the command buffer, the rest of the function keeps the promise.
pub finish-answer :
    (places : Places) (junk : Junk) (first : List ℕ) (ws : List Word) (argv : List ℕ)
    (mem' : Memory) (w : World)
    → length argv ≡ suc (length ws)
    → length (line_of first ws) < u32_mod
    → Text mem' places.command_buffer (line_of first ws)
    → finish places (named first shell_cmds) junk argv mem' w ≡ answer first ws junk argv mem' w
unfolding print_prefix
finish-answer places junk first ws argv mem' w count few shown =
    let w1 = print (text (codes "\n")) (with_memory mem' w) in
    ap (λ r. r >>= λ w2. ok (record { world = print_prefix w2; command_buffer_ptr = 0 }))
      (dispatch-respond places junk first (line_of first ws) argv w1 few shown shell_cmds functions
        shell_cmds-SameFunctions)
    ∙ ap
        (λ n. respond (look_up first functions) (line_of first ws) junk n argv w1 >>= λ w2.
          ok (record { world = print (text (codes "shell# ")) w2; command_buffer_ptr = 0 }))
        count
