-- ===== src/Shell.antt =====
-- kernel/shell/shell.c: the line that is typed, its split into arguments, and the call of a command.
pub mod Split
pub mod Line
pub mod Answer
pub mod Execute
pub mod Typing
pub mod Session
pub mod Writing
mod Tests
use koiz_os.Base.{
  ℕ, zero, suc, ◌+◌, Bool, true, false, not, Option, none, some, List, [], ◌∷◌, ◌++◌, ◌==◌, ltb,
  leb, if◌then◌else◌, length, add32,
}
use koiz_os.Base.Text.{codes}
use koiz_os.Kernel.{Panic, Result, ok, ◌>>=◌, ◌>>◌, panic_if}
use koiz_os.Kernel.Memory.{Memory, write8}
use koiz_os.Strings.{strlen, strcmp, memcpy}
use koiz_os.Commands.{
  World, Junk, Output, text, number, memory, print, with_disk, c_string, arg, sh_ls, sh_read,
  sh_write, sh_free, sh_slabinfo, sh_ps, sh_exec, sh_execbg, sh_sched,
}

abbrev pub shell_max_args : ℕ
shell_max_args = 50

abbrev pub command_buffer_size : ℕ
command_buffer_size = 1024

-- The functions of the table `shell_cmds`.
pub data Command : Type 0 where
  ls write read slabinfo free ps exec execbg sched : Command

-- The names of the table `shell_cmds`.
abbrev pub command_name : Command → List ℕ
command_name ls = codes "ls"
command_name write = codes "write"
command_name read = codes "read"
command_name slabinfo = codes "slabinfo"
command_name free = codes "free"
command_name ps = codes "ps"
command_name exec = codes "exec"
command_name execbg = codes "execbg"
command_name sched = codes "sched"

-- The order of the table.
abbrev pub shell_cmds : List Command
shell_cmds = ls ∷ write ∷ read ∷ slabinfo ∷ free ∷ ps ∷ exec ∷ execbg ∷ sched ∷ []

-- Where the two buffers and the names of the commands lie.
pub record Places : Type 0 where
  pub command_buffer : ℕ
  pub working_buffer : ℕ
  pub name_of : Command → ℕ

pub record Shell : Type 0 where
  pub world : World
  pub command_buffer_ptr : ℕ

abbrev pub with_memory : Memory → World → World
with_memory mem w =
    with_disk (record (w.system.disk) { pmem = record (w.system.disk.pmem) { mem = mem } }) w

-- The state of the loop that splits the line: `insideDQuoteState` is `inside`, `newStringState` is
-- `new_string`.
pub record Splitter : Type 0 where
  pub mem : Memory
  pub c_argv : List ℕ
  pub inside : Bool
  pub new_string : Bool

-- A round of the loop, at an address of the working buffer.
pub split_step : ℕ → Splitter → Splitter
split_step at s =
    if s.mem at == b'\''
    then record s { inside = not s.inside }
    else (if s.mem at == b' '
        then (if s.inside then s else record s { mem = write8 s.mem at 0; new_string = true })
        else (if s.new_string
            then record s { c_argv = s.c_argv ++ (at ∷ []); new_string = false }
            else s))

-- The loop: the rounds left, then `i`.
pub split_loop : ℕ → ℕ → ℕ → Splitter → Splitter
split_loop zero i buffer s = s
split_loop (suc n) i buffer s = split_loop n (i + 1) buffer (split_step (add32 buffer i) s)

-- The loop that compares the first argument with the names.
pub find_command : Places → List Command → ℕ → Memory → Result (Option Command)
find_command places [] name mem = ok none
find_command places (c ∷ cs) name mem = do
  d ← strcmp name (places.name_of c) mem
  if d == 0 then ok (some c) else find_command places cs name mem

run_command : Command → Junk → ℕ → List ℕ → World → Result (ℕ × World)
run_command ls junk argc argv w = sh_ls junk w
run_command write junk argc argv w = sh_write junk argc argv w
run_command read junk argc argv w = sh_read junk argc argv w
run_command slabinfo junk argc argv w = ok (sh_slabinfo w)
run_command free junk argc argv w = ok (sh_free w)
run_command ps junk argc argv w = ok (sh_ps w)
run_command exec junk argc argv w = ok (sh_exec w)
run_command execbg junk argc argv w = sh_execbg junk argc argv w
run_command sched junk argc argv w = sh_sched w

pub print_prefix : World → World
print_prefix w = print (text (codes "shell# ")) w

-- The command that was found, or the message for none. The result of a command is not looked at.
pub dispatch : Places → Option Command → Junk → List ℕ → World → Result World
dispatch places (some c) junk argv w = do (res, w') ← run_command c junk (length argv) argv w; ok w'
dispatch places none junk argv w = do
  shown ← c_string places.command_buffer (memory w)
  ok (print (text (codes "unknown command: " ++ shown ++ codes " \n")) w)

-- `shell_execute_command`
pub execute_command : Places → Junk → World → Result Shell
execute_command places junk w = do
  cstr_len ← strlen places.command_buffer (memory w)
  let (dst, mem) = memcpy places.working_buffer places.command_buffer command_buffer_size (memory w)
  let s = split_loop cstr_len 0 places.working_buffer (record {
    mem = mem;
    c_argv = places.working_buffer ∷ [];
    inside = false;
    new_string = false;
  })
  panic_if (ltb shell_max_args (length s.c_argv)) Panic.overrun
  let w1 = print (text (codes "\n")) (with_memory s.mem w)
  found ← find_command places shell_cmds (arg s.c_argv 0) s.mem
  w2 ← dispatch places found junk s.c_argv w1
  ok (record { world = print_prefix w2; command_buffer_ptr = 0 })

unfoldable init : World → World
init w = print_prefix (
    print (text (codes "\n")) (
      print (number (length shell_cmds))
        (print (text (codes "Number of commands: ")) (print (text (codes "Koiz-OS v1.0 \n")) w))))

-- `command_buffer[command_buffer_ptr] = c; ++command_buffer_ptr;`
pub put_char : Places → ℕ → Shell → Result Shell
put_char places c s = do
  panic_if (leb command_buffer_size s.command_buffer_ptr) Panic.overrun
  ok (record {
    world =
        with_memory (write8 (memory s.world) (add32 places.command_buffer s.command_buffer_ptr) c)
          s.world;
    command_buffer_ptr = s.command_buffer_ptr + 1;
  })

-- A round of the loop of `shell_update`.
pub type_char : Places → Junk → ℕ → Shell → Result Shell
type_char places junk c s =
    if c == 10
    then (do s1 ← put_char places 0 s; execute_command places junk s1.world)
    else (do s1 ← put_char places c s; ok (record s1 { world = print (text (c ∷ [])) s1.world }))

-- The loop of `shell_update` over the characters that the standard input holds; it also ends at a
-- character 0, which the standard input never holds.
pub update : Places → Junk → List ℕ → Shell → Result Shell
update places junk [] s = ok s
update places junk (c ∷ cs) s =
    if c == 0 then ok s else (type_char places junk c s >>= update places junk cs)
