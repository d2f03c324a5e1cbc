-- ===== src/Vfs/Dentry/Path.antt =====
-- The resolution of paths of src/fs/vfs/dentry.c against a walk over a list of names.
use dvivon_os.Vfs.Dentry.Scan.{
  take_component_lem, shorter, skip-append, ends_either, not_at_end, next, skip-all, done, or_false,
  skip-Spells, Spells, rest_shorter, slash_first,
}
use dvivon_os.Base.{
  ◌∙◌, sym, inr, inl, Bool-cases, true, ◌||◌, ◌==◌, if◌then◌else◌, zero, ==_of_ne, refl, suc, [],
  arith, length, ◌≢◌, List, ℕ, ◌<◌, ◌∷◌, ◌≡◌, some,
}
use dvivon_os.Vfs.Inode.{inode_get}
use dvivon_os.Str.{CString}
use mathlib.Core.Bool.{false≢true}
use dvivon_os.Vfs.Dentry.{
  path_lookup, path_lookup_relative, step, at_end, walk_path, skip_slashes, take_component,
}
use dvivon_os.Vfs.{World, Kernel}

module _ (k : Kernel) where
  -- One name after the other; 0 as soon as one is not found.
  unfoldable pub walk_names : ℕ → List CString → World k.State → ℕ × World k.State
  walk_names current [] w = (current, w)
  walk_names current (name ∷ names) w =
      let (found, w₁) = step k current name w in
      let later = walk_names found names w₁ in if found == 0 then (0, w₁) else later

  walk_path-Spells :
      (fuel : ℕ) (path : CString) (names : List CString)
      → Spells path names
      → length path < fuel
      → (current : ℕ) (w : World k.State)
      → walk_path k fuel current path w ≡ some (walk_names current names w)
  unfolding walk_path walk_names
  walk_path-Spells zero path names h lt current w = absurd (omega arith)
  walk_path-Spells (suc fuel) _ _ (done s slashes) lt current w =
      rw (skip-all s slashes, ends_either (at_end s)) refl
  walk_path-Spells (suc fuel) _ _ (next s name rest names slashes v b h) lt current w =
      let r = step k current name w in
      let found = r.0 in
      let tail_shorter : length rest < fuel = shorter s name rest fuel v lt in
      rw
        (
          not_at_end s name rest slashes v,
          skip-append s name rest slashes v,
          not_at_end [] name rest tt v,
          take_component_lem 255 name rest v.short v.bytes b,
          walk_path-Spells fuel rest names h tail_shorter found r.1,
        )
        (elim (Bool-cases (found == 0)) [ inl t ↦ rw t refl | inr f ↦ rw f refl ])

  -- A file system is mounted, with a root inode.
  pub record HasRoot (w : World k.State) (root : ℕ) : Type 0 where
    pub mounted : w.root_mount ≢ 0
    pub has_sb : (w.mounts w.root_mount).sb ≢ 0
    pub is_root : (w.supers (w.mounts w.root_mount).sb).root ≡ root
    pub not_null : root ≢ 0

  relative-Spells :
      (start : ℕ) (path : CString) (names : List CString) (w : World k.State)
      → Spells path names
      → start ≢ 0
      → path_lookup_relative k start path w ≡ some (walk_names start names (inode_get k start w))
  unfolding path_lookup_relative
  relative-Spells start path names w h nz =
      rw (==_of_ne start 0 nz) (
        walk_path-Spells (suc (length path)) path names h (omega arith) start (inode_get k start w))

  at_end-names :
      (path : CString) (names : List CString)
      → Spells path names
      → at_end (skip_slashes path) ≡ true
      → names ≡ []
  at_end-names _ _ (done s slashes) e = refl
  at_end-names _ _ (next s name rest names slashes v b h) e = absurd (
      false≢true
        (sym (not_at_end [] name rest tt v) ∙ (rw (skip-append s name rest slashes v) at e)))

  -- path_lookup of an absolute path that spells a list of names, in components of 1 to 255 bytes, gives
  -- what looking up one name after the other from the root gives, with a reference to the root taken
  -- first; the number of slashes before, between and behind the names does not matter.
  pub path_lookup-Spells :
      (path : CString) (names : List CString) (w : World k.State) (root : ℕ)
      → Spells path names
      → slash_first path ≡ true
      → HasRoot w root
      → path_lookup k path w ≡ some (walk_names root names (inode_get k root w))
  unfolding path_lookup walk_names
  path_lookup-Spells path names w root h absolute v =
      rw
        (
          absolute,
          ==_of_ne _ 0 v.mounted,
          ==_of_ne _ 0 v.has_sb,
          v.is_root,
          ==_of_ne root 0 v.not_null,
        )
        (elim (Bool-cases (at_end (skip_slashes path))) [
          | inl t ↦ rw (t, at_end-names path names h t) refl
          | inr f ↦ rw f (
              relative-Spells root (skip_slashes path) names w (skip-Spells path names h)
                v.not_null)
        ])

  -- Every path is resolved or refused: the rounds that the loop is given are enough.
  walk_path-total :
      (fuel : ℕ) (path : CString) (current : ℕ) (w : World k.State)
      → length path < fuel
      → (r : ℕ × World k.State) × (walk_path k fuel current path w ≡ some r)
  unfolding walk_path
  walk_path-total zero path current w lt = absurd (omega arith)
  walk_path-total (suc fuel) path current w lt =
      let (name, rest) = take_component 255 (skip_slashes path) in
      let (found, w₁) = step k current name w in
      elim (Bool-cases (at_end path || at_end (skip_slashes path))) [
        | inl t ↦ ((current, w), rw t refl)
        | inr more ↦ elim (Bool-cases (found == 0)) [
          | inl t ↦ ((0, w₁), rw (more, t) refl)
          | inr f ↦
              let (r, e) =
                walk_path-total fuel rest found w₁
                  (omega (arith, rest_shorter path (or_false _ _ more).1)) in
              (r, rw (more, f) e)
        ]
      ]

  relative-total :
      (start : ℕ) (path : CString) (w : World k.State)
      → (r : ℕ × World k.State) × (path_lookup_relative k start path w ≡ some r)
  unfolding path_lookup_relative
  relative-total start path w = elim (Bool-cases (start == 0)) [
    | inl t ↦ ((0, w), rw t refl)
    | inr f ↦
        let (r, e) =
          walk_path-total (suc (length path)) path start (inode_get k start w) (omega arith) in
        (r, rw f e)
  ]

  -- path_lookup ends on every path, whatever the file system answers: the model's fuel, a round for
  -- each byte of the path and one more, is enough.
  pub path_lookup-total :
      (path : CString) (w : World k.State)
      → (r : ℕ × World k.State) × (path_lookup k path w ≡ some r)
  unfolding path_lookup
  path_lookup-total path w =
      let sb = (w.mounts w.root_mount).sb in
      let root = (w.supers sb).root in
      let below = skip_slashes path in
      elim (Bool-cases (slash_first path)) [
        | inr f ↦ ((0, w), rw f refl)
        | inl absolute ↦ elim (Bool-cases ((w.root_mount == 0) || (sb == 0) || (root == 0))) [
          | inl t ↦ ((0, w), rw (absolute, t) refl)
          | inr mounted ↦ elim (Bool-cases (at_end below)) [
            | inl t ↦ ((root, inode_get k root w), rw (absolute, mounted, t) refl)
            | inr f ↦ let (r, e) = relative-total root below w in (r, rw (absolute, mounted, f) e)
          ]
        ]
      ]
