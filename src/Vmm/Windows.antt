-- ===== src/Vmm/Windows.antt =====
-- The windows of src/kernel/memory/vmm.c: through the entry that names the directory itself, the
-- directory and the page tables stand at fixed addresses.
use dvivon_os.Base.{ap₂, ap, refl, ◌∙◌, arith, some, true, ◌*◌, ◌%◌, ◌+◌, ◌≡◌, ◌^◌, ◌/◌, ◌<◌, ℕ}
use dvivon_os.Vmm.{frame, pts_window, is_present, pd_window}
use dvivon_os.Vmm.Walk.{walk, IsRecursive}

module _ (mem : ℕ → ℕ) (pd : ℕ) (r : IsRecursive mem pd) where
  pub walk-through :
      (a i : ℕ)
      → a / 2 ^ 22 ≡ 1023
      → a / 2 ^ 12 % 2 ^ 10 ≡ i
      → is_present (mem (pd + 4 * i)) ≡ true
      → walk mem pd a ≡ some (frame (mem (pd + 4 * i)) + a % 4096)
  walk-through a i top e h =
      let e₁ : pd + 4 * (a / 2 ^ 22) ≡ pd + 4092 = omega arith in
      rw e₁ (rw (r.present, r.itself, e, h) refl)

  -- Entry i of the directory.
  pub pd_window_lem : (i : ℕ) → i < 1024 → walk mem pd (pd_window + 4 * i) ≡ some (pd + 4 * i)
  pd_window_lem i h =
      let off : (pd_window + 4 * i) % 4096 ≡ 4 * i = omega arith in
      walk-through (pd_window + 4 * i) 1023 (omega arith) (omega arith) r.present
      ∙ ap₂ (λ (f k : ℕ). some (f + k)) r.itself off

  -- The entry of page p in its table.
  pub pts_window_lem :
      (p : ℕ)
      → p < 2 ^ 20
      → is_present (mem (pd + 4 * (p / 1024))) ≡ true
      → walk mem pd (pts_window + 4 * p) ≡ some (frame (mem (pd + 4 * (p / 1024))) + 4 * (p % 1024))
  pts_window_lem p lt h =
      let off : (pts_window + 4 * p) % 4096 ≡ 4 * (p % 1024) = omega arith in
      walk-through (pts_window + 4 * p) (p / 1024) (omega arith) (omega arith) h
      ∙ ap (λ k. some (frame (mem (pd + 4 * (p / 1024))) + k)) off
