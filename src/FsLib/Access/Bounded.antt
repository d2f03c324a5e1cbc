-- ===== src/FsLib/Access/Bounded.antt =====
-- The loop of `fs_read_file` in src/lib/fs.c.
use dvivon_os.Base.{
  refl, ltb→lt, ◌%◌, ltb, Bool-cases, ◌-◌, ltb_of_le, true, ◌+◌, arith, ◌≡◌, ◌≤◌, Option, ◌^◌, ◌<◌,
  ℕ, some, zero, suc, inl, inr,
}
use dvivon_os.FsLib.Access.{write_from, from, read_loop}
use dvivon_os.Vfs.File.{file_read, is_positive}
use dvivon_os.FsLib.{W}
use dvivon_os.Base.Buf.{Buf}
use dvivon_os.Vfs.{Kernel}

module _ (k : Kernel) (f : ℕ) where
  -- A read from the file gives at most as many bytes as it is asked for.
  pub record ReadsAtMost : Type 0 where
    pub bound :
        (buf : Buf) (count : ℕ) (w : W k)
        → is_positive (file_read k f buf count w).0 ≡ true
        → (file_read k f buf count w).0 ≤ count

  module _ (reads : ReadsAtMost) (size : ℕ) (small : size < 2 ^ 32) where
    abbrev Ends : Option (ℕ × Buf × W k) → Type 0
    Ends r = (total : ℕ) × (buf : Buf) × (w : W k) × (r ≡ some (total, buf, w)) × (total ≤ size)

    read_loop-Ends :
        (fuel total : ℕ) (buf : Buf) (w : W k)
        → size ≤ total + fuel
        → total ≤ size
        → Ends (read_loop k fuel f buf size total w)
    unfolding read_loop
    read_loop-Ends zero total buf w enough le =
        (total, buf, w, rw (ltb_of_le total size (omega arith)) refl, le)
    read_loop-Ends (suc fuel) total buf w enough le =
        let r = file_read k f (from buf total) (size - total) w in
        let buf₁ = write_from buf total r.1 in
        elim (Bool-cases (ltb total size)) [
          | inr f ↦ (total, buf, w, rw f refl, le)
          | inl t ↦ elim (Bool-cases (is_positive r.0)) [
            | inr f ↦ (total, buf₁, r.2, rw (t, f) refl, le)
            | inl p ↦
                let fits = reads.bound (from buf total) (size - total) w p in
                let (total₁, buf₂, w₂, e, le₁) =
                  read_loop-Ends fuel ((total + r.0) % 2 ^ 32) buf₁ r.2
                    (ground (arith, fits, p, ltb→lt total size t)) (ground (arith, fits)) in
                (total₁, buf₂, w₂, rw (t, p) e, le₁)
          ]
        ]

    -- fs_read_file's loop ends, with the size of the buffer as fuel, and reads at most that many bytes, for
    -- a buffer smaller than 4 GiB and a file whose reads give at most the bytes that they are asked for.
    pub read_loop-Bounded : (buf : Buf) (w : W k) → Ends (read_loop k size f buf size 0 w)
    read_loop-Bounded buf w = read_loop-Ends size 0 buf w (omega arith) (omega arith)
