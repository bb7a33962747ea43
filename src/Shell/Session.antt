-- ===== src/Shell/Session.antt =====
-- kernel/shell/shell.c as a whole: what typing a command and the enter key does.
use koiz_os.Base.{
  All, ℕ, ◌+◌, ◌≤◌, ◌<◌, ◌≡◌, ◌⊎◌, List, [], ◌∷◌, ◌++◌, length, length-append, arith, sym, subst,
  ap, ◌∙◌, u32_mod, false,
}
use koiz_os.Kernel.{◌>>=◌}
use koiz_os.Kernel.Memory.{Memory}
use koiz_os.Strings.Compare.{Text-agree, Text}
use koiz_os.Commands.{World, Junk, memory}
use koiz_os.Shell.{Command, command_name, Places, update, with_memory}
use koiz_os.Shell.Split.{Word, AllWords, Within, Chars-append}
use koiz_os.Shell.Split.Arguments.{Inside, line_of, values_of, Texts}
use koiz_os.Shell.Answer.{answer}
use koiz_os.Shell.Execute.{Ready, execute_command-runs}
use koiz_os.Shell.Typing.{IsTyped, echoed, Typed, update-line, with_memory-echoed, memory-echoed}

-- The two buffers of 1024 bytes and the names of the commands lie apart, within 32 bits.
pub record IsLaidOut (places : Places) (mem : Memory) : Type 0 where
  pub command_room : places.command_buffer + 1024 ≤ u32_mod
  pub working_room : places.working_buffer + 1024 ≤ u32_mod
  pub apart :
      (places.command_buffer + 1024 ≤ places.working_buffer)
      ⊎ (places.working_buffer + 1024 ≤ places.command_buffer)
  pub names : (c : Command) → Text mem (places.name_of c) (command_name c)
  pub names_fit : (c : Command) → places.name_of c + length (command_name c) < u32_mod
  pub off_working :
      (c : Command)
      → (places.name_of c + length (command_name c) < places.working_buffer)
        ⊎ (places.working_buffer + 1024 ≤ places.name_of c)
  pub off_command :
      (c : Command)
      → (places.name_of c + length (command_name c) < places.command_buffer)
        ⊎ (places.command_buffer + 1024 ≤ places.name_of c)

-- A command line: a name of characters other than spaces and quotes, and words; all characters
-- can be typed, and the line leaves room for its terminator.
pub record IsCommandLine (first : List ℕ) (ws : List Word) : Type 0 where
  pub name : All (Within false) first
  pub words : AllWords ws
  pub typed : All IsTyped (line_of first ws)
  pub short : length (line_of first ws) < 1024

Typed-Ready :
    (places : Places) (mem mem' : Memory) (first : List ℕ) (ws : List Word)
    → IsLaidOut places mem
    → IsCommandLine first ws
    → Typed places.command_buffer (line_of first ws ++ (0 ∷ [])) mem mem'
    → Ready places mem' first ws
Typed-Ready places mem mem' first ws laid line typed =
    let whole = length-append (line_of first ws) (0 ∷ []) in
    let (chars, (end, nothing)) =
      Chars-append mem' places.command_buffer (line_of first ws) (0 ∷ []) typed.chars in
    record {
      line = record {
        name = line.name;
        words = line.words;
        chars = chars;
        end = end;
        fits = omega (arith, line.short, laid.command_room);
      };
      short = line.short;
      command_room = laid.command_room;
      working_room = laid.working_room;
      apart = laid.apart;
      names = λ c.
          Text-agree mem mem' (places.name_of c) (command_name c) (laid.names_fit c)
            (λ b lo hi. typed.outside b (omega (arith, laid.off_command c, line.short, whole)))
            (laid.names c);
      names_fit = laid.names_fit;
      names_apart = laid.off_working;
    }

-- The memory that the arguments lie in replaces the one before.
answer-echoed :
    (first : List ℕ) (ws : List Word) (junk : Junk) (argv : List ℕ) (mem1 mem' : Memory)
    (cs : List ℕ) (w : World)
    → answer first ws junk argv mem' (echoed cs (with_memory mem1 w))
      ≡ answer first ws junk argv mem' (echoed cs w)
answer-echoed first ws junk argv mem1 mem' cs w =
    ap (λ (x : World). answer first ws junk argv (memory x) x)
      (with_memory-echoed cs mem' (with_memory mem1 w) ∙ sym (with_memory-echoed cs mem' w))

-- When the buffers and the names lie apart and the command buffer is empty, typing a command line
-- of at most 50 words and the enter key prints the line and a new line, calls the function whose name
-- is the first word, with all words as arguments and their number, or prints that the line is an
-- unknown command when there is no such function, prints the prefix, and goes on with the input
-- behind it. The arguments lie in the working buffer, and all memory outside the two buffers is as it
-- was.
pub update-session :
    (places : Places) (junk : Junk) (w : World) (first : List ℕ) (ws : List Word) (rest : List ℕ)
    → IsLaidOut places (memory w)
    → IsCommandLine first ws
    → length ws < 50
    → (argv : List ℕ) × (mem' : Memory) × Texts mem' argv (first ∷ values_of ws)
      × Inside places.working_buffer (places.working_buffer + 1024) argv (first ∷ values_of ws)
      × ((b : ℕ)
          → (b < places.working_buffer) ⊎ (places.working_buffer + 1024 ≤ b)
          → (b < places.command_buffer) ⊎ (places.command_buffer + 1024 ≤ b)
          → mem' b ≡ memory w b)
      × (update places junk
            (line_of first ws ++ (10 ∷ rest))
            (record { world = w; command_buffer_ptr = 0 })
          ≡ (answer first ws junk argv mem' (echoed (line_of first ws) w)
              >>= update places junk rest))
update-session places junk w first ws rest laid line few =
    let cs = line_of first ws in
    let (mem1, typed, e1) =
      (update-line places junk laid.command_room cs rest w line.typed).0 line.short in
    let w1 = echoed cs (with_memory mem1 w) in
    let same : memory w1 ≡ mem1 = memory-echoed cs (with_memory mem1 w) in
    let ready1 = Typed-Ready places (memory w) mem1 first ws laid line typed in
    let ready = subst (λ m. Ready places m first ws) (sym same) ready1 in
    let (argv, mem', off, runs, over) = execute_command-runs places junk w1 first ws ready in
    let whole = length-append cs (0 ∷ []) in
    (
      argv,
      mem',
      off.arguments,
      off.inside,
      λ b out_working out_command.
          off.outside b out_working
          ∙ ap (λ m. m b) same
          ∙ typed.outside b (omega (arith, out_command, line.short, whole)),
      e1
          ∙ ap (λ r. r >>= update places junk rest) (runs few)
          ∙ ap (λ r. r >>= update places junk rest)
              (answer-echoed first ws junk argv mem1 mem' cs w),
    )
