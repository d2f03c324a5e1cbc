-- ===== src/Vmm/Walk.antt =====
-- How the processor translates for src/kernel/memory/vmm.c, as its manual documents for pages of 4 KiB:
-- a directory of 1024 entries, each naming a table of 1024 entries.
use dvivon_os.Base.{
  ap, refl, ◌∙◌, ◌≤◌, zero, none, suc, ◌==◌, arith, if◌then◌else◌, true, ◌*◌, ◌/◌, bit_or, some,
  ◌+◌, ◌^◌, Option, ◌%◌, ◌<◌, ◌≡◌, ℕ,
}
use dvivon_os.Base.Bits.{bit_or_step}
use dvivon_os.Vmm.{frame, is_present, Mmu}

-- The physical address of a virtual one, for the directory `pd`; none where an entry is not present.
abbrev pub walk : (ℕ → ℕ) → (pd a : ℕ) → Option ℕ
walk mem pd a =
    let pde = mem (pd + 4 * (a / 2 ^ 22)) in
    let pte = mem (frame pde + 4 * (a / 2 ^ 12 % 2 ^ 10)) in
    if is_present pde then (if is_present pte then some (frame pte + a % 4096) else none) else none

-- The physical memory behind a processor, by the addresses of its words. A translation is always that
-- of the entries in memory: what `invlpg` and a write of CR3 are there for is taken as given.
pub record IsMmu {S : Type 0} (m : Mmu S) : Type 0 where
  pub physical : S → ℕ → ℕ
  pub load_walk :
      (a p : ℕ) (s : S) → walk (physical s) (m.read_cr3 s) a ≡ some p → m.load a s ≡ physical s p
  pub store_walk :
      (a v p q : ℕ) (s : S)
      → walk (physical s) (m.read_cr3 s) a ≡ some p
      → physical (m.store a v s) q ≡ (if q == p then v else physical s q)
  pub store_cr3 : (a v : ℕ) (s : S) → m.read_cr3 (m.store a v s) ≡ m.read_cr3 s
  pub invlpg_physical : (a q : ℕ) (s : S) → physical (m.invlpg a s) q ≡ physical s q
  pub invlpg_cr3 : (a : ℕ) (s : S) → m.read_cr3 (m.invlpg a s) ≡ m.read_cr3 s

-- The last entry of the directory is the directory itself.
pub record IsRecursive (mem : ℕ → ℕ) (pd : ℕ) : Type 0 where
  pub aligned : pd % 4096 ≡ 0
  pub itself : frame (mem (pd + 4092)) ≡ pd
  pub present : is_present (mem (pd + 4092)) ≡ true

-- Entries: a frame and flags.
or_zero : (n a : ℕ) → a ≤ n → bit_or a 0 ≡ a
or_zero n zero h = refl
or_zero zero (suc a) h = absurd (omega arith)
or_zero (suc n) (suc a) h =
    omega (arith, bit_or_step (suc a) 0, or_zero n (suc a / 2) (omega arith))

mul_double : (k x : ℕ) → k * (2 * x) ≡ 2 * (k * x)
mul_double k x = grind arith

or_shifted : (n k f : ℕ) → f < 2 ^ n → bit_or (k * 2 ^ n) f ≡ k * 2 ^ n + f
or_shifted zero k f h =
    let e : f ≡ 0 = omega arith in rw e (or_zero (k * 1) (k * 1) (omega arith) ∙ omega arith)
or_shifted (suc n) k f h =
    let double : 2 ^ suc n ≡ 2 * 2 ^ n = omega arith in
    let e : k * 2 ^ suc n ≡ 2 * (k * 2 ^ n) = ap (λ t. k * t) double ∙ mul_double k (2 ^ n) in
    let low : f / 2 < 2 ^ n = omega arith in
    let half : 2 * (k * 2 ^ n) / 2 ≡ k * 2 ^ n = omega arith in
    let rest = ap (λ t. bit_or t (f / 2)) half ∙ or_shifted n k (f / 2) low in
    rw e (omega (arith, bit_or_step (2 * (k * 2 ^ n)) f, rest))

pub entry_lem : (phys flags : ℕ) → flags < 4096 → bit_or (frame phys) flags ≡ frame phys + flags
entry_lem phys flags h = or_shifted 12 (phys / 4096) flags h

pub frame-entry : (phys flags : ℕ) → flags < 4096 → frame (bit_or (frame phys) flags) ≡ frame phys
frame-entry phys flags h = omega (arith, entry_lem phys flags h)

pub present-entry :
    (phys flags : ℕ) → flags < 4096 → flags % 2 ≡ 1 → is_present (bit_or (frame phys) flags) ≡ true
present-entry phys flags h odd = ground (arith, entry_lem phys flags h)
