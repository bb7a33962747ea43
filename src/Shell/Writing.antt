-- ===== src/Shell/Writing.antt =====
-- kernel/shell/shell.c with the command `write` and the disk: a typed line stores a file.
use koiz_os.Base.{
  ℕ, ◌+◌, ◌≤◌, ◌<◌, ◌≡◌, ◌≢◌, ◌⊎◌, List, [], ◌∷◌, ◌++◌, length, arith, refl, sym, subst, ap, ◌∙◌,
  u32_mod,
}
use koiz_os.Base.Text.{codes}
use koiz_os.Kernel.{Result, ok, ◌>>=◌}
use koiz_os.Kernel.Memory.{Memory}
use koiz_os.Strings.Compare.{Text}
use koiz_os.Ramdisk.{Ramdisk}
use koiz_os.Ramdisk.Access.{block}
use koiz_os.Fat16.Device.{IsDisk}
use koiz_os.Fat16.Save.{StoresFile}
use koiz_os.Fat16.Lookup.{Absent}
use koiz_os.Fat16.Files.{free_cluster, free_entry}
use koiz_os.Fat16.Same.{
  with_mem, SameBytes, same-block, same-IsDisk, same-Absent, same-free_cluster, same-free_entry,
}
use koiz_os.Commands.{World, Junk, memory, print, text, with_disk, arg}
use koiz_os.Commands.Files.{wrote, sh_write_outcome}
use koiz_os.Shell.{Places, Shell, update, with_memory}
use koiz_os.Shell.Split.{Word}
use koiz_os.Shell.Split.Words.{value_of}
use koiz_os.Shell.Split.Arguments.{Inside, line_of, Texts}
use koiz_os.Shell.Answer.{answer}
use koiz_os.Shell.Typing.{echoed}
use koiz_os.Shell.Session.{IsLaidOut, IsCommandLine, update-session}

-- Bytes that lie apart from a buffer of 1024.
abbrev Clear : ℕ → ℕ → ℕ → Type 0
Clear buffer at n = (at + n ≤ buffer) ⊎ (buffer + 1024 ≤ at)

-- The page of pointers and the pages of the disk lie apart from both buffers.
pub record IsApart (places : Places) (d : Ramdisk) : Type 0 where
  pub table_command : Clear places.command_buffer d.block_pointers 4096
  pub table_working : Clear places.working_buffer d.block_pointers 4096
  pub pages_command :
      (k : ℕ) → k < 1024 → Clear places.command_buffer (block d.pmem.mem d.block_pointers k) 4096
  pub pages_working :
      (k : ℕ) → k < 1024 → Clear places.working_buffer (block d.pmem.mem d.block_pointers k) 4096

-- The second and the third of three arguments that lie between two addresses.
pub record Second (mem : Memory) (lo hi : ℕ) (argv : List ℕ) (b c : List ℕ) : Type 0 where
  pub count : length argv ≡ 3
  pub named : Text mem (arg argv 1) b
  pub name_low : lo ≤ arg argv 1
  pub name_high : arg argv 1 + length b < hi
  pub given : Text mem (arg argv 2) c
  pub given_high : arg argv 2 + length c < hi

three_arguments :
    (mem : Memory) (lo hi : ℕ) (argv : List ℕ) (a b c : List ℕ)
    → Texts mem argv (a ∷ b ∷ c ∷ [])
    → Inside lo hi argv (a ∷ b ∷ c ∷ [])
    → Second mem lo hi argv b c
three_arguments mem lo hi [] a b c texts within = elim texts [ ]
three_arguments mem lo hi (p ∷ []) a b c (at, texts) within = elim texts [ ]
three_arguments mem lo hi (p ∷ q ∷ []) a b c (at, (at', texts)) within = elim texts [ ]
three_arguments mem lo hi (p ∷ q ∷ r ∷ []) a b c (at, (named, (given, none_left)))
      (low, high, (name_low, name_high, (given_low, given_high, end))) =
    record {
      count = refl;
      named = named;
      name_low = name_low;
      name_high = name_high;
      given = given;
      given_high = given_high;
    }
three_arguments mem lo hi (p ∷ q ∷ r ∷ s ∷ ps) a b c (at, (at', (at'', texts))) within =
    elim texts [ ]

disk-echoed : (cs : List ℕ) (w : World) → (echoed cs w).system.disk ≡ w.system.disk
disk-echoed [] w = refl
disk-echoed (c ∷ cs) w = disk-echoed cs (print (text (c ∷ [])) w)

-- A file of at most 512 bytes can be stored in the disk, and memory has changed only outside it.
record CanStore (places : Places) (mem' : Memory) (name contents : List ℕ) (d : Ramdisk)
    : Type 0 where
  disk : IsDisk d
  same : SameBytes d mem'
  clear :
      (k : ℕ) → k < 1024 → Clear places.working_buffer (block d.pmem.mem d.block_pointers k) 4096
  absent : Absent name d
  some_free : free_cluster d ≢ 0
  few : length contents ≤ 512

-- What is left when the file is stored.
abbrev pub after : List ℕ → List ℕ → Ramdisk → World → World
after name contents d w =
    print (text (codes "shell# "))
      (wrote name (length contents) (with_disk d (print (text (codes "\n")) w)))

module _ (places : Places) (junk : Junk) (name_word contents_word : Word) where
  abbrev file_name : List ℕ
  file_name = value_of name_word

  abbrev file_bytes : List ℕ
  file_bytes = value_of contents_word

  abbrev finished_with : World → Result Shell
  finished_with w2 =
      ok (record { world = print (text (codes "shell# ")) w2; command_buffer_ptr = 0 })

  abbrev Outcome : List ℕ → Memory → World → Ramdisk → Type 0
  Outcome argv mem' w d =
      (d' : Ramdisk) × StoresFile junk.entry file_name file_bytes (free_cluster d) (free_entry d)
        (with_mem d mem') d'
      × (answer (codes "write") (name_word ∷ contents_word ∷ []) junk argv mem' w
          ≡ ok (record { world = after file_name file_bytes d' w; command_buffer_ptr = 0 }))

  write-Outcome :
      (argv : List ℕ) (mem' : Memory) (w : World)
      → places.working_buffer + 1024 ≤ u32_mod
      → Second mem' places.working_buffer (places.working_buffer + 1024) argv file_name file_bytes
      → CanStore places mem' file_name file_bytes w.system.disk
      → Outcome argv mem' w w.system.disk
  write-Outcome argv mem' w room args can =
      let d = w.system.disk in
      let w1 = print (text (codes "\n")) (with_memory mem' w) in
      let (there, full, stores) =
        sh_write_outcome junk 3 argv w1 file_name file_bytes (omega arith) args.named
          (omega (arith, args.name_high, room)) args.given (omega (arith, args.given_high, room))
          (same-IsDisk d mem' can.disk can.same) (omega (arith, args.name_high, room))
          (λ a lo hi k hk. omega (
            arith,
            can.clear k hk,
            same-block d mem' can.disk can.same k hk,
            args.name_low,
            args.name_high,
          )) in
      let cluster = same-free_cluster d mem' can.disk can.same in
      let entry = same-free_entry d mem' can.disk can.same in
      let (d', stored, runs) =
        stores (same-Absent d mem' can.disk can.same file_name can.absent)
          (subst (λ c. c ≢ 0) (sym cluster) can.some_free) can.few in
      (
        d',
        subst
            (λ r.
              StoresFile junk.entry file_name file_bytes (free_cluster d) r (with_mem d mem') d')
            entry
            (subst
              (λ c.
                StoresFile junk.entry file_name file_bytes c (free_entry (with_mem d mem'))
                  (with_mem d mem') d')
              cluster stored),
        ap (λ r. (r >>= λ (res, w2). ok w2) >>= λ w2. finished_with w2) runs,
      )

-- When the buffers, the names of the commands and the pages of the disk lie apart, the command
-- buffer is empty, the disk has 1024 pages that do not overlap, each of the entries 1 to 31 of the
-- directory that is in use has a character larger than the one of the name at its place, both in
-- the directory's form of 11 characters, a cluster is free and the contents have at most 512 bytes:
-- typing `write`, the name and the contents, as words of characters that can be typed and that fit
-- in the command buffer, and the enter key stores the contents in the first free cluster, under the
-- name; the file is reported as written, the prefix is printed, and the shell goes on with the
-- input behind it. Before the file is stored the bytes of the disk do not change.
pub update-writes :
    (places : Places) (junk : Junk) (w : World) (name contents : Word) (rest : List ℕ)
    → IsLaidOut places (memory w)
    → IsCommandLine (codes "write") (name ∷ contents ∷ [])
    → IsApart places w.system.disk
    → IsDisk w.system.disk
    → Absent (value_of name) w.system.disk
    → free_cluster w.system.disk ≢ 0
    → length (value_of contents) ≤ 512
    → (mem' : Memory) × (d : Ramdisk) × SameBytes w.system.disk mem'
      × StoresFile junk.entry
          (value_of name)
          (value_of contents)
          (free_cluster w.system.disk)
          (free_entry w.system.disk)
          (with_mem w.system.disk mem')
          d
      × (update places junk
            (line_of (codes "write") (name ∷ contents ∷ []) ++ (10 ∷ rest))
            (record { world = w; command_buffer_ptr = 0 })
          ≡ update places junk rest (record {
            world =
                after
                  (value_of name)
                  (value_of contents)
                  d
                  (echoed (line_of (codes "write") (name ∷ contents ∷ [])) w);
            command_buffer_ptr = 0;
          }))
update-writes places junk w name contents rest laid line off disk absent some_free few =
    let cs = line_of (codes "write") (name ∷ contents ∷ []) in
    let (argv, mem', texts, within, kept, runs) =
      update-session places junk w (codes "write") (name ∷ contents ∷ []) rest laid line
        (omega arith) in
    let args =
      three_arguments mem' places.working_buffer (places.working_buffer + 1024) argv (codes "write")
        (value_of name) (value_of contents) texts within in
    let same : SameBytes w.system.disk mem' = record {
      table =
          λ a lo hi. kept a (omega (arith, off.table_working)) (omega (arith, off.table_command));
      pages = λ k a hk lo hi.
          kept a (omega (arith, off.pages_working k hk)) (omega (arith, off.pages_command k hk));
    } in
    let can : CanStore places mem' (value_of name) (value_of contents) w.system.disk = record {
      disk = disk;
      same = same;
      clear = off.pages_working;
      absent = absent;
      some_free = some_free;
      few = few;
    } in
    let (d, stored, finished) =
      subst (Outcome places junk name contents argv mem' (echoed cs w)) (disk-echoed cs w) (
        write-Outcome places junk name contents argv mem' (echoed cs w) laid.working_room args (
          subst (CanStore places mem' (value_of name) (value_of contents)) (sym (disk-echoed cs w))
            can)) in
    (mem', d, same, stored, runs ∙ ap (λ r. r >>= update places junk rest) finished)
