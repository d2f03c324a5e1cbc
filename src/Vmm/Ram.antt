-- ===== src/Vmm/Ram.antt =====
-- A processor with a memory that translates as src/kernel/memory/vmm.c relies on.
use dvivon_os.Base.{refl, none, ap, some, ◌≡◌, Option, ℕ}
use dvivon_os.Base.Buf.{update}
use dvivon_os.Vmm.Walk.{walk, IsMmu}
use dvivon_os.Vmm.{Mmu}

pub record Machine : Type 0 where
  pub cr3 : ℕ
  pub words : ℕ → ℕ

-- An address that is not translated reads as 0, and is not written.
pub fetch : Machine → Option ℕ → ℕ
fetch s none = 0
fetch s (some p) = s.words p

pub write : Machine → ℕ → Option ℕ → Machine
write s v none = s
write s v (some p) = record s { words = update s.words p v }

pub write-cr3 : (s : Machine) (v : ℕ) (o : Option ℕ) → (write s v o).cr3 ≡ s.cr3
unfolding write
write-cr3 s v none = refl
write-cr3 s v (some p) = refl

unfoldable pub machine : Mmu Machine
unfolding fetch write
machine = record {
  load = λ a s. fetch s (walk s.words s.cr3 a);
  store = λ a v s. write s v (walk s.words s.cr3 a);
  invlpg = λ a s. s;
  read_cr3 = λ s. s.cr3;
  write_cr3 = λ p s. record s { cr3 = p };
}

unfoldable pub machine-IsMmu : IsMmu machine
unfolding machine fetch write
machine-IsMmu = record {
  physical = λ s. s.words;
  load_walk = λ a p s h. ap (fetch s) h;
  store_walk = λ a v p q s h. ap (λ o. (write s v o).words q) h;
  store_cr3 = λ a v s. write-cr3 s v (walk s.words s.cr3 a);
  invlpg_physical = λ a q s. refl;
  invlpg_cr3 = λ a s. refl;
}
