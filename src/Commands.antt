-- ===== src/Commands.antt =====
-- kernel/shell/filesystem, kernel/shell/memory and kernel/shell/process: the commands of the shell.
pub mod Files
pub mod Reading
pub mod Example
mod Tests
use koiz_os.Base.{
  ℕ, zero, suc, ◌+◌, Bool, true, false, Option, none, some, List, [], ◌∷◌, ◌++◌, ◌==◌, ltb,
  if◌then◌else◌, get_or, add32, u32_mod,
}
use koiz_os.Base.Text.{codes}
use koiz_os.Kernel.{Result, ok, diverge, ◌>>=◌}
use koiz_os.Kernel.Memory.{Memory}
use koiz_os.Pmem.{MemoryInfo}
use koiz_os.Pmem as Pages
use koiz_os.Strings.{strlen}
use koiz_os.Malloc.{Slab, State, SlabInfo, malloc, free, kmemlist}
use koiz_os.Ramdisk.{Ramdisk}
use koiz_os.Ramdisk.Slice.{slice}
use koiz_os.Fat16.{FatStatus, FileLine}
use koiz_os.Fat16.Record.{Entry}
use koiz_os.Fs.{list_files, fs_file_write, fs_file_exists}
use koiz_os.Process.{ProcessLine, printlist, max_processes}
use koiz_os.Process.Execve.{System, load, execve}
use koiz_os.Sched.{printinfo}

-- What is printed: a text, or what the listing functions of the other parts print.
pub data Output : Type 0 where
  text : List ℕ → Output
  number : ℕ → Output
  files : ℕ → ℕ → List FileLine → Output
  memory_info : MemoryInfo → Output
  slab_info : List SlabInfo → Output
  processes_info : List ProcessLine → Output
  sched_info : Option ℕ → List (List (ℕ × ℕ)) → Output

-- The parts of the kernel that the commands use. The memory of the kernel is that of `system`.
pub record World : Type 0 where
  pub system : System
  pub slabs : List Slab
  pub printed : List Output

-- What the commands find in stack variables that they have not set: a sector buffer and an entry.
pub record Junk : Type 0 where
  pub bytes : List ℕ
  pub entry : Entry

abbrev pub memory : World → Memory
memory w = w.system.disk.pmem.mem

abbrev pub print : Output → World → World
print o w = record w { printed = w.printed ++ (o ∷ []) }

abbrev pub with_disk : Ramdisk → World → World
with_disk d w = record w { system = record (w.system) { disk = d } }

-- The heap, and what is left of the world when the heap has changed.
abbrev pub heap : World → State
heap w = record { slabs = w.slabs; pmem = w.system.disk.pmem }

abbrev pub with_heap : State → World → World
with_heap s w = record w {
  slabs = s.slabs;
  system = record (w.system) { disk = record (w.system.disk) { pmem = s.pmem } };
}

-- The string at an address, for functions that read one character after the other.
pub string_at : ℕ → ℕ → Memory → Result (List ℕ)
string_at zero str mem = diverge
string_at (suc fuel) str mem =
    let rest = string_at fuel (add32 str 1) mem in
    if mem str == 0 then ok [] else (do cs ← rest; ok (mem str ∷ cs))

abbrev pub c_string : ℕ → Memory → Result (List ℕ)
c_string str mem = string_at u32_mod str mem

-- `argv[i]`, for `i` below `argc`.
abbrev pub arg : List ℕ → ℕ → ℕ
arg argv i = get_or argv i 0

-- `-1` as a bit pattern.
abbrev pub failure : ℕ
failure = 0xFFFFFFFF

pub sh_ls : Junk → World → Result (ℕ × World)
sh_ls junk w = do
  (used, unused_clusters, lines) ← list_files junk.bytes w.system.disk
  ok (0, print (Output.files used unused_clusters lines) w)

-- `fs_file_read` is `load`: the buffer is filled where it lies. What it returns is not looked at.
pub sh_read : Junk → ℕ → List ℕ → World → Result (ℕ × World)
sh_read junk argc argv w =
    if ltb argc 2
    then ok (failure, print (text (codes "read needs 1 argument: filename")) w)
    else (do
      (file_buffer, s) ← malloc 4096 (heap w)
      let w1 = with_heap s w
      name ← c_string (arg argv 1) (memory w1)
      found ← fs_file_exists junk.bytes name w1.system.disk
      if found == 0 then ok (failure, print (text (codes "file does not exist\n")) w1) else (do
        (status, d) ← load junk.bytes name file_buffer w1.system.disk
        let w2 = with_disk d w1
        contents ← c_string file_buffer (memory w2)
        let w3 = print (text (contents ++ codes "\n")) w2
        s' ← free file_buffer (heap w3)
        ok (0, with_heap s' w3)))

-- What `fs_file_write` returns is not looked at.
pub sh_write : Junk → ℕ → List ℕ → World → Result (ℕ × World)
sh_write junk argc argv w =
    if ltb argc 3
    then ok (failure, print (text (codes "write needs 2 arguments: filename and contents")) w)
    else (do
      file_size ← strlen (arg argv 2) (memory w)
      name ← c_string (arg argv 1) (memory w)
      (status, d) ←
          fs_file_write junk.bytes junk.entry name (slice (memory w) (arg argv 2) file_size)
            w.system.disk
      let w1 = with_disk d w
      shown ← c_string (arg argv 1) (memory w1)
      let w2 = print (text (codes "Wrote file " ++ shown ++ codes " with ")) w1
      ok (0, print (text (codes " bytes\n")) (print (number file_size) w2)))

pub sh_free : World → ℕ × World
sh_free w = (0, print (memory_info (Pages.list_info w.system.disk.pmem)) w)

pub sh_slabinfo : World → ℕ × World
sh_slabinfo w = (0, print (slab_info (kmemlist (heap w))) w)

pub sh_ps : World → ℕ × World
sh_ps w = (0, print (processes_info (printlist max_processes 0 w.system.processes)) w)

pub sh_exec : World → ℕ × World
sh_exec w = (0, print (text (codes "not implemented yet.\n")) w)

-- What `process_execve` returns is not looked at.
pub sh_execbg : Junk → ℕ → List ℕ → World → Result (ℕ × World)
sh_execbg junk argc argv w =
    if ltb argc 2
    then ok (
      1,
      print (text (codes "Usage: exec filename\n"))
          (print (text (codes "exec requires an argument\n")) w),
    )
    else (do
      name ← c_string (arg argv 1) (memory w)
      (res, k) ← execve junk.bytes name w.system
      ok (0, print (text (codes "not implemented yet.\n")) (record w { system = k })))

pub sh_sched : World → Result (ℕ × World)
sh_sched w = do
  (current, lines) ← printinfo w.system.processes w.system.sched
  ok (0, print (sched_info current lines) w)
