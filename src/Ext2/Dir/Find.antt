-- ===== src/Ext2/Dir/Find.antt =====
-- The walk over the entries of a directory block in `ext2_remove_dir_entry`, src/fs/ext2/directory.c.
use dvivon_os.Base.Buf.{put16_frame, get16-put16_self, put32_frame, Outside, get32-put32_self, Buf}
use dvivon_os.Base.{
  if◌then◌else◌, ltb_of_le, refl, zero, arith, inr, inl, ◌==◌, ◌||◌, ltb, not, true, Bool-cases,
  none, ◌+◌, some, suc, ◌<◌, ◌≡◌, ◌≤◌, Option, ℕ, ap, ◌-◌, ◌∙◌, ◌%◌, ◌^◌, subst,
}
use dvivon_os.Ext2.Entry.{de_inode, rec_len}
use dvivon_os.Ext2.Dir.{drop_entry, is_named, find_entry}
use dvivon_os.Str.{CString}

module _ (name : CString) (bs : ℕ) (buf : Buf) where
  -- The entry before the one at `off`, if that is not the first.
  abbrev pub Follows : Option ℕ → ℕ → Type 0
  Follows none off = off ≡ 0
  Follows (some prev) off = prev + rec_len buf prev ≡ off

  -- What the walk finds: an entry of that name in the block, with its predecessor.
  pub record Found (prev : Option ℕ) (off : ℕ) : Type 0 where
    pub inside : off < bs
    pub named : is_named name bs buf off ≡ true
    pub follows : Follows prev off

  abbrev pub FindPost : Option (Option ℕ × ℕ) → Type 0
  FindPost none = Unit
  FindPost (some (prev, off)) = Found prev off

  find_entry-Found :
      (fuel : ℕ) (prev : Option ℕ) (off : ℕ)
      → Follows prev off
      → FindPost (find_entry name bs buf fuel prev off)
  unfolding find_entry
  find_entry-Found zero prev off h = tt
  find_entry-Found (suc fuel) prev off h =
      elim (Bool-cases (not (ltb off bs) || (rec_len buf off == 0))) [
        | inl t ↦ rw t tt
        | inr f ↦ elim (Bool-cases (is_named name bs buf off)) [
          | inl t ↦ rw (f, t) (record { inside = ground arith; named = t; follows = h })
          | inr u ↦ rw (f, u) (find_entry-Found fuel (some off) (off + rec_len buf off) refl)
        ]
      ]

  -- More fuel than the bytes that are left in the block changes nothing of what the walk finds.
  pub find_entry-fuel :
      (fuel fuel' : ℕ) (prev : Option ℕ) (off : ℕ)
      → bs ≤ off + fuel
      → fuel ≤ fuel'
      → find_entry name bs buf fuel' prev off ≡ find_entry name bs buf fuel prev off
  unfolding find_entry
  find_entry-fuel zero zero prev off h le = refl
  find_entry-fuel zero (suc fuel') prev off h le = rw (ltb_of_le off bs (omega arith)) refl
  find_entry-fuel (suc fuel) zero prev off h le = absurd (omega arith)
  find_entry-fuel (suc fuel) (suc fuel') prev off h le =
      elim (Bool-cases (not (ltb off bs) || (rec_len buf off == 0))) [
        | inl t ↦ rw t refl
        | inr f ↦ rw f (
            ap (λ r. if is_named name bs buf off then some (prev, off) else r)
              (find_entry-fuel fuel fuel' (some off) (off + rec_len buf off) (ground arith)
                (omega arith)))
      ]

  -- After the removal of the entry at `off`: its inode number is 0, or the length of the entry before it
  -- is the distance to its end, in 16 bits; and no other byte has changed.
  abbrev pub Dropped : Option ℕ → ℕ → Buf → Type 0
  Dropped none off after = (de_inode after off ≡ 0) × ((j : ℕ) → Outside j off 4 → after j ≡ buf j)
  Dropped (some prev) off after =
      (rec_len after prev ≡ (off - prev + rec_len buf off) % 2 ^ 16)
      × ((j : ℕ) → Outside j (prev + 4) 2 → after j ≡ buf j)

  drop_entry-Dropped :
      (prev : Option ℕ) (off : ℕ) → Follows prev off → Dropped prev off (drop_entry prev off buf)
  unfolding drop_entry
  drop_entry-Dropped none off h = (get32-put32_self buf off 0, λ j out. put32_frame buf off 0 j out)
  drop_entry-Dropped (some prev) off h = (
    get16-put16_self buf (prev + 4) (rec_len buf prev + rec_len buf off)
        ∙ ap (λ n. (n + rec_len buf off) % 2 ^ 16) (omega arith),
    λ j out. put16_frame buf (prev + 4) (rec_len buf prev + rec_len buf off) j out,
  )

  -- The entry that `ext2_remove_dir_entry` finds in a block starts inside the block, is in use, has the
  -- name, and stands directly behind the entry before it, if there is one; and the block that is
  -- written back is without it: the length of the entry before it has grown by its length, in 16
  -- bits, or, for the first entry, its inode number is 0; and no other byte has changed.
  pub find-drop_entry :
      (prev : Option ℕ) (off : ℕ)
      → find_entry name bs buf bs none 0 ≡ some (prev, off)
      → Found prev off × Dropped prev off (drop_entry prev off buf)
  find-drop_entry prev off e =
      let found : Found prev off = subst FindPost e (find_entry-Found bs none 0 refl) in
      (found, drop_entry-Dropped prev off found.follows)
