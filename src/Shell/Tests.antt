-- ===== src/Shell/Tests.antt =====
-- The theorems on shell.c in an example kernel: the command buffer is at 0x3000, the working buffer
-- at 0x4000. The command line is `ps 'a b'  c`.
use koiz_os.Base.{
  ℕ, ◌+◌, ◌≤◌, ◌<◌, ◌≡◌, ◌⊎◌, inl, inr, true, false, List, [], ◌∷◌, ◌++◌, length, arith, refl, leb,
  ltb, ◌&&◌, ◌-◌, if◌then◌else◌, get_or,
}
use koiz_os.Base.Text.{codes}
use koiz_os.Kernel.{panic, Panic, ◌>>=◌}
use koiz_os.Kernel.Memory.{Memory, read32}
use koiz_os.Strings.Compare.{Text-agree, Text}
use koiz_os.Commands.{memory}
use koiz_os.Commands.Example.{world, junk, disk, disk-IsDisk, kernel_memory, kernel_memory-block}
use koiz_os.Ramdisk.{Ramdisk, byte_addr}
use koiz_os.Fat16.Save.{StoresFile}
use koiz_os.Fat16.Search.{first}
use koiz_os.Fat16.Lookup.{entry_of, Absent, entry_of-Absent}
use koiz_os.Fat16.Files.{free_cluster, free_entry}
use koiz_os.Fat16.Same.{with_mem, SameBytes}
use koiz_os.Shell.Writing.{IsApart, after, update-writes}
use koiz_os.Shell.{
  Command, ls, write, read, slabinfo, free, ps, exec, execbg, sched, command_name, Places,
  split_loop, update, execute_command, with_memory,
}
use koiz_os.Shell.Split.{Word, state}
use koiz_os.Shell.Split.Arguments.{
  Inside, line_of, values_of, Texts, LineAt, Splits, split_loop-Splits,
}
use koiz_os.Shell.Answer.{answer}
use koiz_os.Shell.Execute.{Ready, SplitOff, execute_command-runs}
use koiz_os.Shell.Typing.{Typed, echoed, update-line}
use koiz_os.Shell.Session.{IsLaidOut, IsCommandLine, update-session}

abbrev name_of : Command → ℕ
name_of ls = 0x5000
name_of write = 0x5010
name_of read = 0x5020
name_of slabinfo = 0x5030
name_of free = 0x5040
name_of ps = 0x5050
name_of exec = 0x5060
name_of execbg = 0x5070
name_of sched = 0x5080

abbrev places : Places
places = record { command_buffer = 0x3000; working_buffer = 0x4000; name_of = name_of }

names : (c : Command) → Text kernel_memory (name_of c) (command_name c)
names ls = omega arith
names write = omega arith
names read = omega arith
names slabinfo = omega arith
names free = omega arith
names ps = omega arith
names exec = omega arith
names execbg = omega arith
names sched = omega arith

name_bounds : (c : Command) → (0x5000 ≤ name_of c) × (name_of c + length (command_name c) < 0x6000)
name_bounds ls = omega arith
name_bounds write = omega arith
name_bounds read = omega arith
name_bounds slabinfo = omega arith
name_bounds free = omega arith
name_bounds ps = omega arith
name_bounds exec = omega arith
name_bounds execbg = omega arith
name_bounds sched = omega arith

places-IsLaidOut : IsLaidOut places (memory world)
places-IsLaidOut = record {
  command_room = omega arith;
  working_room = omega arith;
  apart = inl (omega arith);
  names = names;
  names_fit = λ c. omega (arith, name_bounds c);
  off_working = λ c. inr (omega (arith, name_bounds c));
  off_command = λ c. inr (omega (arith, name_bounds c));
}

abbrev words : List Word
words =
    record { spaces = 0; quoted = true; chars = codes "a b" }
    ∷ record { spaces = 1; quoted = false; chars = codes "c" }
    ∷ []

line-IsCommandLine : IsCommandLine (codes "ps") words
line-IsCommandLine = record {
  name = ground arith;
  words = ground arith;
  typed = omega arith;
  short = omega arith;
}

line_text : line_of (codes "ps") words ≡ codes "ps 'a b'  c"
line_text = refl

arguments_text : values_of words ≡ codes "a b'" ∷ codes "c" ∷ []
arguments_text = refl

update-session_example :
    (argv : List ℕ) × (mem' : Memory) × Texts mem' argv (codes "ps" ∷ values_of words)
    × Inside 0x4000 (0x4000 + 1024) argv (codes "ps" ∷ values_of words)
    × ((b : ℕ)
        → (b < 0x4000) ⊎ (0x4000 + 1024 ≤ b)
        → (b < 0x3000) ⊎ (0x3000 + 1024 ≤ b)
        → mem' b ≡ kernel_memory b)
    × (update places junk
          (line_of (codes "ps") words ++ (10 ∷ []))
          (record { world = world; command_buffer_ptr = 0 })
        ≡ (answer (codes "ps") words junk argv mem' (echoed (line_of (codes "ps") words) world)
            >>= update places junk []))
update-session_example =
    update-session places junk world (codes "ps") words [] places-IsLaidOut line-IsCommandLine
      (omega arith)

update-line_example :
    (length (codes "ps") < 1024
      → (mem' : Memory) × Typed 0x3000 (codes "ps" ++ (0 ∷ [])) kernel_memory mem'
        × (update places junk
              (codes "ps" ++ (10 ∷ []))
              (record { world = world; command_buffer_ptr = 0 })
            ≡ (execute_command places junk (echoed (codes "ps") (with_memory mem' world))
                >>= update places junk [])))
    × (1024 ≤ length (codes "ps")
        → update places junk
            (codes "ps" ++ (10 ∷ []))
            (record { world = world; command_buffer_ptr = 0 })
          ≡ panic Panic.overrun)
update-line_example = update-line places junk (omega arith) (codes "ps") [] world (omega arith)

-- The memory with the line at `at`.
abbrev with_line : ℕ → Memory
with_line at a =
    if leb at a && ltb a (at + 0x400)
    then get_or (codes "ps 'a b'  c") (a - at) 0
    else kernel_memory a

with_line-LineAt : LineAt (with_line 0x4000) 0x4000 (codes "ps") words
with_line-LineAt = record {
  name = ground arith;
  words = ground arith;
  chars = omega arith;
  end = refl;
  fits = omega arith;
}

split_loop-Splits_example : Splits (with_line 0x4000) 0x4000 (codes "ps") words (
    split_loop
      (length (line_of (codes "ps") words))
      0
      0x4000
      (state (0x4000 ∷ []) (with_line 0x4000) false false))
split_loop-Splits_example =
    split_loop-Splits (with_line 0x4000) 0x4000 (codes "ps") words with_line-LineAt

with_line-Ready : Ready places (with_line 0x3000) (codes "ps") words
with_line-Ready = record {
  line = record {
    name = ground arith;
    words = ground arith;
    chars = omega arith;
    end = refl;
    fits = omega arith;
  };
  short = omega arith;
  command_room = omega arith;
  working_room = omega arith;
  apart = inl (omega arith);
  names = λ c.
      Text-agree kernel_memory (with_line 0x3000) (name_of c) (command_name c)
        (omega (arith, name_bounds c))
        (λ b lo hi.
          let away : (leb 0x3000 b && ltb b 0x3400) ≡ false = ground (arith, lo, name_bounds c) in
          rw away refl)
        (names c);
  names_fit = λ c. omega (arith, name_bounds c);
  names_apart = λ c. inr (omega (arith, name_bounds c));
}

execute_command-runs_example :
    (argv : List ℕ) × (mem' : Memory) × SplitOff places
      (with_line 0x3000)
      (codes "ps")
      words
      argv
      mem'
    × (length words < 50
        → execute_command places junk (with_memory (with_line 0x3000) world)
          ≡ answer (codes "ps") words junk argv mem' (with_memory (with_line 0x3000) world))
    × (50 ≤ length words
        → execute_command places junk (with_memory (with_line 0x3000) world) ≡ panic Panic.overrun)
execute_command-runs_example =
    execute_command-runs places junk (with_memory (with_line 0x3000) world) (codes "ps") words
      with_line-Ready

-- The line `write a hi`.
abbrev file_word : Word
file_word = record { spaces = 0; quoted = false; chars = codes "a" }

abbrev contents_word : Word
contents_word = record { spaces = 0; quoted = false; chars = codes "hi" }

write-IsCommandLine : IsCommandLine (codes "write") (file_word ∷ contents_word ∷ [])
write-IsCommandLine = record {
  name = ground arith;
  words = ground arith;
  typed = omega arith;
  short = omega arith;
}

-- The pages of the disk begin at 0x100000.
places-IsApart : IsApart places disk
places-IsApart = record {
  table_command = inl (omega arith);
  table_working = inl (omega arith);
  pages_command = λ k hk. inr (omega (arith, kernel_memory-block k hk));
  pages_working = λ k hk. inr (omega (arith, kernel_memory-block k hk));
}

disk_search : entry_of (codes "a") disk ≡ 0
unfolding first byte_addr read32
disk_search = refl

disk-Absent : Absent (codes "a") disk
disk-Absent = entry_of-Absent (codes "a") disk disk_search

disk-cluster_1 : free_cluster disk ≡ 1
unfolding first byte_addr read32
disk-cluster_1 = refl

update-writes_example :
    (mem' : Memory) × (d : Ramdisk) × SameBytes disk mem'
    × StoresFile junk.entry
        (codes "a")
        (codes "hi")
        (free_cluster disk)
        (free_entry disk)
        (with_mem disk mem')
        d
    × (update places junk
          (codes "write a hi" ++ (10 ∷ []))
          (record { world = world; command_buffer_ptr = 0 })
        ≡ update places junk [] (record {
          world = after (codes "a") (codes "hi") d (echoed (codes "write a hi") world);
          command_buffer_ptr = 0;
        }))
update-writes_example =
    update-writes places junk world file_word contents_word [] places-IsLaidOut write-IsCommandLine
      places-IsApart disk-IsDisk disk-Absent (omega (arith, disk-cluster_1)) (omega arith)
