-- ===== src/Vfs/Mount/Table.antt =====
-- The mount list and the root mount of src/fs/vfs/mount.c together.
use dvivon_os.Vfs.Mount.Callbacks.{
  KeepsMounts, SameMounts, drop_superblock-Same, release-Same, mount_alloc-Same,
  superblock_free-Same,
}
use dvivon_os.Vfs.Filesystem.{name_of, get_filesystem, unlink_first}
use dvivon_os.Base.{
  sym, ◌||◌, ==_of_ne, false, if◌then◌else◌, ==_iff, arith, subst, true, ◌≢◌, ◌∙◌, refl,
  Option-cases, inr, inl, [], ◌==◌, Bool-cases, ◌∷◌, ◌⊎◌, List, ◌≡◌, ℕ, none, some,
}
use dvivon_os.Vfs.Mount.{
  mount_add, mount_alloc, mount_remove, drop_superblock, enter_mount, mount, umount,
}
use mathlib.Core.Bool.{false≢true}
use dvivon_os.Vfs.{Kernel, World}
use dvivon_os.Str.{CString}

abbrev pub Member : ℕ → List ℕ → Type 0
Member x [] = ⊥
Member x (y ∷ ys) = (x ≡ y) ⊎ Member x ys

-- The root is one of the mounts, or there is none.
pub record RootListed (S : Type 0) (w : World S) : Type 0 where
  pub listed : (w.root_mount ≡ 0) ⊎ Member w.root_mount w.mount_list

module _ {S : Type 0} {a b : World S} where
  RootListed-Same : SameMounts S a b → RootListed S a → RootListed S b
  RootListed-Same e h = record { listed = rw (e.list_same, e.root_same) h.listed }

later : (x y z : ℕ) (xs : List ℕ) → x ≢ y → Member x (z ∷ xs) → (z == y) ≡ true → Member x xs
later x y z xs ne (inl e) t = absurd (ne (omega (arith, (==_iff _ _).0 t)))
later x y z xs ne (inr m) t = m

Member-map :
    (x z : ℕ) (xs ys : List ℕ) → Member x (z ∷ xs) → (Member x xs → Member x ys) → Member x (z ∷ ys)
Member-map x z xs ys (inl e) f = inl e
Member-map x z xs ys (inr m) f = inr (f m)

unlink_first-Member :
    (x y : ℕ) (xs ys : List ℕ) → unlink_first y xs ≡ some ys → Member x xs → x ≢ y → Member x ys
unfolding unlink_first
unlink_first-Member x y [] ys e h ne = absurd h
unlink_first-Member x y (z ∷ xs) ys e h ne = elim (Bool-cases (z == y)) [
  | inl t ↦
      let e₁ : some xs ≡ some ys = rw t at e in
      let same : xs ≡ ys = cc in subst (Member x) same (later x y z xs ne h t)
  | inr f ↦ elim (Option-cases (unlink_first y xs)) [
    | inl nothing ↦ let e₁ : none ≡ some ys = rw (f, nothing) at e in absurd cc
    | inr (rs, found) ↦
        let e₁ : some (z ∷ rs) ≡ some ys = rw (f, found) at e in
        let same : z ∷ rs ≡ ys = cc in
        subst (Member x) same
          (Member-map x z xs rs h (λ m. unlink_first-Member x y xs rs found m ne))
  ]
]

module _ (k : Kernel) (keeps : KeepsMounts k) where
  -- The end of `umount`, before the entry is freed.
  abbrev reset_root : ℕ → World k.State → World k.State
  reset_root mnt w = if w.root_mount == mnt then record w { root_mount = 0 } else w

  reset_root-RootListed :
      (mnt : ℕ) (w : World k.State)
      → mnt ≢ 0
      → RootListed k.State w
      → RootListed k.State (reset_root mnt (mount_remove k mnt w))
  unfolding mount_remove
  reset_root-RootListed mnt w nz h = elim (Option-cases (unlink_first mnt w.mount_list)) [
    | inl nothing ↦ elim (Bool-cases (w.root_mount == mnt)) [
      | inl t ↦ rw (==_of_ne mnt 0 nz, nothing, t) (record { listed = inl refl })
      | inr f ↦ rw (==_of_ne mnt 0 nz, nothing, f) h
    ]
    | inr (ms, found) ↦ elim (Bool-cases (w.root_mount == mnt)) [
      | inl t ↦ rw (==_of_ne mnt 0 nz, found, t) (record { listed = inl refl })
      | inr f ↦
          let apart : w.root_mount ≢ mnt = λ e. false≢true (sym f ∙ (==_iff _ _).1 e) in
          rw (==_of_ne mnt 0 nz, found, f)
            (elim h.listed [
              | inl z ↦ record { listed = inl z }
              | inr m ↦ record {
                listed = inr (unlink_first-Member w.root_mount mnt w.mount_list ms found m apart);
              }
            ])
    ]
  ]

  -- When the file systems' functions mount and unmount nothing themselves, umount keeps it true that the
  -- root mount is one of the mounts in the list, or that there is none.
  pub umount-RootListed :
      (mnt : ℕ) (w : World k.State) → RootListed k.State w → RootListed k.State (umount k mnt w).1
  unfolding umount
  umount-RootListed mnt w h =
      let w₀ = drop_superblock k mnt w in
      let w₁ = mount_remove k mnt w₀ in
      elim (Bool-cases (mnt == 0)) [
        | inl t ↦ rw t h
        | inr f ↦
            let nz : mnt ≢ 0 = λ e. false≢true (sym f ∙ (==_iff _ _).1 e) in
            let kept = RootListed-Same (drop_superblock-Same k keeps mnt w) h in
            rw f (
              RootListed-Same (release-Same k mnt (reset_root mnt w₁))
                (reset_root-RootListed mnt w₀ nz kept))
      ]

  enter_mount-RootListed :
      (mnt dev sb flags : ℕ) (type : CString) (w : World k.State)
      → (mnt == 0) ≡ false
      → RootListed k.State w
      → RootListed k.State (enter_mount k mnt dev sb flags type w)
  unfolding enter_mount mount_add
  enter_mount-RootListed mnt dev sb flags type w f h = elim (Bool-cases (w.root_mount == 0)) [
    | inl t ↦ rw (f, t) (record { listed = inr (inl refl) })
    | inr g ↦
        rw (f, g)
          (elim h.listed [
            | inl z ↦ absurd (false≢true (sym g ∙ (==_iff _ _).1 z))
            | inr m ↦ record { listed = inr (inr m) }
          ])
  ]

  -- When the file systems' functions mount and unmount nothing themselves, mount keeps it true, whether it
  -- succeeds or fails, that the root mount is one of the mounts in the list, or that there is none.
  pub mount-RootListed :
      (dev : ℕ) (type : CString) (flags : ℕ) (w : World k.State)
      → RootListed k.State w
      → RootListed k.State (mount k dev type flags w).1
  unfolding mount
  mount-RootListed dev type flags w h =
      let fs = get_filesystem k type w in
      let r = (k.fs_types fs).mount dev w in
      let m = mount_alloc k r.1 in
      let mounted = RootListed-Same (keeps.mounting fs dev w) h in
      let made = RootListed-Same (mount_alloc-Same k keeps r.1) mounted in
      elim (Bool-cases ((dev == 0) || (fs == 0))) [
        | inl t ↦ rw t h
        | inr f ↦ elim (Bool-cases (r.0 == 0)) [
          | inl t ↦ rw (f, t) mounted
          | inr g ↦ elim (Bool-cases (m.0 == 0)) [
            | inl t ↦ rw (f, g, t) (RootListed-Same (superblock_free-Same k keeps r.0 m.1) made)
            | inr n ↦
                rw (f, g, n) (enter_mount-RootListed m.0 dev r.0 flags (name_of k fs) m.1 n made)
          ]
        ]
      ]
