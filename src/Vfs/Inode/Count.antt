-- ===== src/Vfs/Inode/Count.antt =====
-- The reference counts of src/fs/vfs/inode.c.
use dvivon_os.Base.{
  inr, ==_iff, sym, ap, ==_refl, ==_of_ne, inl, arith, ◌==◌, Bool-cases, refl, ◌%◌, ◌+◌, ◌≡◌, ◌-◌,
  ◌^◌, ◌<◌, ◌≢◌, ℕ,
}
use dvivon_os.Vfs.Inode.{set_ref_count, inode_get, inode_put}
use dvivon_os.Vfs.{World, Kernel}

module _ (k : Kernel) (p : ℕ) (w : World k.State) where
  abbrev count : ℕ
  count = (w.inodes p).ref_count

  taken : p ≢ 0 → count < 2 ^ 32 - 1 → inode_get k p w ≡ set_ref_count k p (count + 1) w
  unfolding inode_get
  taken nz small =
      let same : (count + 1) % 2 ^ 32 ≡ count + 1 = omega arith in rw (==_of_ne p 0 nz, same) refl

  given_back :
      p ≢ 0
      → 0 < count
      → count < 2 ^ 32 - 1
      → inode_put k p (set_ref_count k p (count + 1) w)
        ≡ set_ref_count k p count (set_ref_count k p (count + 1) w)
  unfolding inode_put
  given_back nz used small =
      let same : (count + 1 + 2 ^ 32 - 1) % 2 ^ 32 ≡ count = omega arith in
      rw (==_of_ne p 0 nz, ==_refl p) (rw same (rw (==_of_ne count 0 (λ e. omega arith)) refl))

  unchanged :
      (q : ℕ) → (set_ref_count k p count (set_ref_count k p (count + 1) w)).inodes q ≡ w.inodes q
  unchanged q = elim (Bool-cases (q == p)) [
    | inl t ↦ rw (t, ==_refl p) (ap w.inodes (sym ((==_iff q p).0 t)))
    | inr f ↦ rw f refl
  ]

  -- Taking a reference to an inode that is in use and giving it back frees nothing and leaves every inode as
  -- it was, while the count does not pass 32 bits.
  pub inode_put-inode_get :
      p ≢ 0
      → 0 < count
      → count < 2 ^ 32 - 1
      → ((inode_put k p (inode_get k p w)).rest ≡ w.rest)
        × ((q : ℕ) → (inode_put k p (inode_get k p w)).inodes q ≡ w.inodes q)
  inode_put-inode_get nz used small =
      rw (taken nz small, given_back nz used small) (refl, unchanged)
