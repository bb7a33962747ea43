-- ===== src/Ramdisk/Frame.antt =====
-- The memory that an access to the disk (kernel/drivers/ramdisk/ramdisk.c) leaves alone.
use koiz_os.Base.{ℕ, ◌+◌, ◌*◌, ◌/◌, ◌≤◌, ◌<◌, ◌≡◌, ◌⊎◌, false, ◌==◌, arith, refl, ◌∙◌, subst, sym}
use koiz_os.Kernel.Memory.{Memory, write8}
use koiz_os.Ramdisk.{byte_addr}
use koiz_os.Ramdisk.Access.{block, Layout, block-write8, byte_addr-block}

-- An address in no page of the disk.
abbrev pub Off : Memory → ℕ → ℕ → ℕ → Type 0
Off mem pointers n a =
    (k : ℕ) → k < n → (a < block mem pointers k) ⊎ (block mem pointers k + 4096 ≤ a)

-- The pages of the disk are the same, and memory outside them has not changed.
pub record Frame (pointers n : ℕ) (mem mem' : Memory) : Type 0 where
  pub blocks : (k : ℕ) → k < n → block mem' pointers k ≡ block mem pointers k
  pub others : (a : ℕ) → Off mem pointers n a → mem' a ≡ mem a

pub Frame-refl : (pointers n : ℕ) (mem : Memory) → Frame pointers n mem mem
Frame-refl pointers n mem = record { blocks = λ k h. refl; others = λ a off. refl }

pub Frame-trans :
    {pointers n : ℕ} {mem1 mem2 mem3 : Memory}
    → Frame pointers n mem1 mem2
    → Frame pointers n mem2 mem3
    → Frame pointers n mem1 mem3
Frame-trans f g = record {
  blocks = λ k h. g.blocks k h ∙ f.blocks k h;
  others = λ a off.
      g.others a (λ k h. subst (λ b. (a < b) ⊎ (b + 4096 ≤ a)) (sym (f.blocks k h)) (off k h))
      ∙ f.others a off;
}

pub Frame-write8 :
    {pointers n : ℕ} {mem : Memory}
    → Layout mem pointers n
    → (s v : ℕ) → s < n * 4096
    → Frame pointers n mem (write8 mem (byte_addr pointers mem s) v)
Frame-write8 {pointers} {n} {mem} lay s v hs = record {
  blocks = λ k h. block-write8 lay s v k hs h;
  others = λ a off.
      let away : (byte_addr pointers mem s == a) ≡ false =
        ground (arith, byte_addr-block lay s hs, off (s / 4096) (omega arith)) in
      rw away refl;
}
