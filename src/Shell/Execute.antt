-- ===== src/Shell/Execute.antt =====
-- `shell_execute_command` (kernel/shell/shell.c): a line runs the command of its name with its words.
use koiz_os.Base.{
  ℕ, ◌+◌, ◌≤◌, ◌<◌, ◌≡◌, ◌⊎◌, true, false, List, [], ◌∷◌, ltb, length, length-append, arith, refl,
  ap, ◌∙◌, u32_mod,
}
use koiz_os.Kernel.{Panic, ok, panic, ◌>>=◌, ◌>>◌, panic_if}
use koiz_os.Kernel.Memory.{Memory}
use koiz_os.Strings.{memcpy}
use koiz_os.Strings.Compare.{Text-agree, Text, strlen_lem}
use koiz_os.Strings.Copy.{memcpy-Stores}
use koiz_os.Commands.{World, Junk, memory, arg}
use koiz_os.Shell.{
  Command, command_name, shell_cmds, Places, Splitter, split_loop, find_command, execute_command,
  shell_max_args, command_buffer_size,
}
use koiz_os.Shell.Split.{Word, state, spell}
use koiz_os.Shell.Split.Arguments.{
  Inside, Inside-widen, LineAt, split_loop-Splits, line_of, values_of, Texts,
}
use koiz_os.Shell.Answer.{answer, finish, finish-answer}
use koiz_os.Shell.Line.{
  named, find_command-named, Chars-move, LineAt-Text, Texts-length, values_of-length, Texts-head,
}

-- The memory that the shell works on holds a line in the command buffer and the names of the
-- commands, none of it in the working buffer.
pub record Ready (places : Places) (mem : Memory) (first : List ℕ) (ws : List Word) : Type 0 where
  pub line : LineAt mem places.command_buffer first ws
  pub short : length (line_of first ws) < command_buffer_size
  pub command_room : places.command_buffer + command_buffer_size ≤ u32_mod
  pub working_room : places.working_buffer + command_buffer_size ≤ u32_mod
  pub apart :
      (places.command_buffer + command_buffer_size ≤ places.working_buffer)
      ⊎ (places.working_buffer + command_buffer_size ≤ places.command_buffer)
  pub names : (c : Command) → Text mem (places.name_of c) (command_name c)
  pub names_fit : (c : Command) → places.name_of c + length (command_name c) < u32_mod
  pub names_apart :
      (c : Command)
      → (places.name_of c + length (command_name c) < places.working_buffer)
        ⊎ (places.working_buffer + command_buffer_size ≤ places.name_of c)

-- The line is split: the arguments, and the memory they lie in.
pub record SplitOff (places : Places) (mem : Memory) (first : List ℕ) (ws : List Word)
    (argv : List ℕ) (mem' : Memory) : Type 0 where
  pub arguments : Texts mem' argv (first ∷ values_of ws)
  pub inside :
      Inside places.working_buffer
        (places.working_buffer + command_buffer_size)
        argv
        (first ∷ values_of ws)
  pub outside :
      (b : ℕ)
      → (b < places.working_buffer) ⊎ (places.working_buffer + command_buffer_size ≤ b)
      → mem' b ≡ mem b

module _ (places : Places) (mem : Memory) (first : List ℕ) (ws : List Word)
    (h : Ready places mem first ws) where
  copied : Memory
  copied = (memcpy places.working_buffer places.command_buffer command_buffer_size mem).1

  splitter : Splitter
  unfolding copied
  splitter =
      split_loop (length (line_of first ws)) 0 places.working_buffer
        (state (places.working_buffer ∷ []) copied false false)

  copied-LineAt : LineAt copied places.working_buffer first ws
  unfolding copied
  copied-LineAt =
      let stores =
        memcpy-Stores places.working_buffer places.command_buffer command_buffer_size mem
          h.working_room h.command_room (omega (arith, h.apart)) in
      record {
        name = h.line.name;
        words = h.line.words;
        chars =
            Chars-move mem copied places.command_buffer places.working_buffer (line_of first ws)
              (λ i hi. stores.inside i (omega (arith, h.short))) h.line.chars;
        end = stores.inside (length (line_of first ws)) h.short ∙ h.line.end;
        fits = omega (arith, h.short, h.working_room);
      }

  splitter-SplitOff : SplitOff places mem first ws splitter.c_argv splitter.mem
  unfolding copied splitter
  splitter-SplitOff =
      let stores =
        memcpy-Stores places.working_buffer places.command_buffer command_buffer_size mem
          h.working_room h.command_room (omega (arith, h.apart)) in
      let splits = split_loop-Splits copied places.working_buffer first ws copied-LineAt in
      record {
        arguments = splits.arguments;
        inside =
            Inside-widen places.working_buffer places.working_buffer
              (places.working_buffer + length (line_of first ws) + 1)
              (places.working_buffer + command_buffer_size) splitter.c_argv (first ∷ values_of ws)
              (omega arith) (omega (arith, h.short)) splits.inside;
        outside = λ b out.
            splits.outside b (omega (arith, out, h.short)) ∙ stores.outside b (omega (arith, out));
      }

  splitter-found :
      find_command places shell_cmds (arg splitter.c_argv 0) splitter.mem
      ≡ ok (named first shell_cmds)
  splitter-found =
      let off = splitter-SplitOff in
      let long = length-append first (spell ws) in
      find_command-named places shell_cmds (arg splitter.c_argv 0) first splitter.mem
        (omega (arith, long, h.short))
        (Texts-head splitter.mem splitter.c_argv first (values_of ws) off.arguments)
        (λ c.
          Text-agree mem splitter.mem (places.name_of c) (command_name c) (h.names_fit c)
            (λ b lo hi. off.outside b (omega (arith, h.names_apart c))) (h.names c))

module _ (places : Places) (junk : Junk) (w : World) (first : List ℕ) (ws : List Word)
    (h : Ready places (memory w) first ws) where
  execute_command-steps :
      (s : Splitter)
      → splitter places (memory w) first ws h ≡ s
      → execute_command places junk w ≡ (
          panic_if (ltb shell_max_args (length s.c_argv)) Panic.overrun
          >> (find_command places shell_cmds (arg s.c_argv 0) s.mem >>= λ found.
              finish places found junk s.c_argv s.mem w))
  unfolding execute_command splitter copied
  execute_command-steps s e =
      let long = length-append first (spell ws) in
      let measured =
        strlen_lem (memory w) places.command_buffer (line_of first ws)
          (omega (arith, h.command_room)) (omega (arith, h.short))
          (LineAt-Text (memory w) places.command_buffer first ws h.line) in
      rw (measured, e) refl

  -- The line is still in the command buffer when the command is called.
  execute_command-answer :
      (argv : List ℕ) (mem' : Memory)
      → SplitOff places (memory w) first ws argv mem'
      → finish places (named first shell_cmds) junk argv mem' w ≡ answer first ws junk argv mem' w
  execute_command-answer argv mem' off =
      let line = line_of first ws in
      let count = Texts-length mem' argv (first ∷ values_of ws) off.arguments in
      finish-answer places junk first ws argv mem' w (omega (arith, count, values_of-length ws))
        (omega (arith, h.short))
        (Text-agree (memory w) mem' places.command_buffer line
          (omega (arith, h.short, h.command_room))
          (λ b lo hi. off.outside b (omega (arith, h.apart, h.short)))
          (LineAt-Text (memory w) places.command_buffer first ws h.line))

  -- With a line of less than 1024 characters in the command buffer, behind it a terminator, and
  -- the names of the commands outside the working buffer: a line of at most 50 words prints a new
  -- line, calls the function whose name is the first word, with all words of the line as arguments
  -- and their number, or prints that the line is an unknown command when there is no such function;
  -- then it prints the prefix and leaves the command buffer empty. The words lie in the working
  -- buffer, and memory outside it is as it was. A line of more words writes behind the array of the
  -- arguments.
  pub execute_command-runs :
      (argv : List ℕ) × (mem' : Memory) × SplitOff places (memory w) first ws argv mem'
      × (length ws < 50 → execute_command places junk w ≡ answer first ws junk argv mem' w)
      × (50 ≤ length ws → execute_command places junk w ≡ panic Panic.overrun)
  execute_command-runs =
      let s = splitter places (memory w) first ws h in
      let off = splitter-SplitOff places (memory w) first ws h in
      let found = splitter-found places (memory w) first ws h in
      let steps = execute_command-steps s refl in
      let count = Texts-length s.mem s.c_argv (first ∷ values_of ws) off.arguments in
      let words = values_of-length ws in
      (
        s.c_argv,
        s.mem,
        off,
        λ few.
            let test : ltb shell_max_args (length s.c_argv) ≡ false =
              ground (arith, few, count, words) in
            steps
            ∙ ap
                (λ b.
                  panic_if b Panic.overrun
                  >> (find_command places shell_cmds (arg s.c_argv 0) s.mem >>= λ f.
                      finish places f junk s.c_argv s.mem w))
                test
            ∙ ap (λ r. r >>= λ f. finish places f junk s.c_argv s.mem w) found
            ∙ execute_command-answer s.c_argv s.mem off,
        λ many.
            let test : ltb shell_max_args (length s.c_argv) ≡ true =
              ground (arith, many, count, words) in
            steps
            ∙ ap
                (λ b.
                  panic_if b Panic.overrun
                  >> (find_command places shell_cmds (arg s.c_argv 0) s.mem >>= λ f.
                      finish places f junk s.c_argv s.mem w))
                test,
      )
