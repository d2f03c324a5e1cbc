-- ===== src/Ata/Runs.antt =====
-- A run of words that a buffer takes in, as `ata_read_pio_data` of src/drivers/disk/ata.c does, and
-- the sectors that stand in it.
use dvivon_os.Base.{
  ltb, ◌%◌, ◌&&◌, ap, leb, ◌/◌, ◌==◌, ap₂, if◌then◌else◌, ◌*◌, ◌-◌, arith, ◌+◌, ◌<◌, ◌≡◌, ℕ, suc,
}
use dvivon_os.Ata.Disk.{Image}

-- One word more at the front of a run of words.
module _ (g : ℕ → ℕ) (p k i : ℕ) where
  later : p < i → g (suc k + (i - (p + 1))) ≡ g (k + (i - p))
  later h = let e : suc k + (i - (p + 1)) ≡ k + (i - p) = omega arith in ap g e

  first : i ≡ p → g (k + (i - p)) ≡ g k
  first h = let e : k + (i - p) ≡ k = omega arith in ap g e

  pub run-cons :
      (m v old w : ℕ)
      → v ≡ g k
      → w ≡ (
          if leb (p + 1) i && ltb i (p + 1 + suc m)
          then g (suc k + (i - (p + 1)))
          else if i == p
          then v
          else old)
      → w ≡ (if leb p i && ltb i (p + suc (suc m)) then g (k + (i - p)) else old)
  run-cons m v old w e h = ground (arith, later, first)

  pub run-one :
      (v old : ℕ)
      → v ≡ g k
      → (if i == p then v else old) ≡ (if leb p i && ltb i (p + 1) then g (k + (i - p)) else old)
  run-one v old e = ground (arith, first)

-- The n sectors from `lba` on stand in `buf'` from word p on, and the rest is as in `buf`.
abbrev pub Filled : Image → (lba p n : ℕ) → (buf buf' : ℕ → ℕ) → Type 0
Filled image lba p n buf buf' =
    (i : ℕ)
    → buf' i ≡ (
        if leb p i && ltb i (p + n * 256)
        then image (lba + (i - p) / 256) ((i - p) % 256)
        else buf i)

module _ (image : Image) where
  same_word : (l l' k k' : ℕ) → l ≡ l' → k ≡ k' → image l k ≡ image l' k'
  same_word l l' k k' e e' = ap₂ image e e'

  pub Filled-append :
      (lba p n m : ℕ) (buf buf' buf'' : ℕ → ℕ)
      → Filled image lba p n buf buf'
      → Filled image (lba + n) (p + n * 256) m buf' buf''
      → Filled image lba p (n + m) buf buf''
  Filled-append lba p n m buf buf' buf'' h k i = ground (
    arith,
    h i,
    k i,
    same_word (lba + n + (i - (p + n * 256)) / 256) (lba + (i - p) / 256)
        ((i - (p + n * 256)) % 256) ((i - p) % 256),
  )

  pub Filled-none : (lba p : ℕ) (buf : ℕ → ℕ) → Filled image lba p 0 buf buf
  Filled-none lba p buf i = ground arith

  pub Filled-one :
      (lba p : ℕ) (buf buf' : ℕ → ℕ)
      → ((i : ℕ) → buf' i ≡ (if leb p i && ltb i (p + 256) then image lba (0 + (i - p)) else buf i))
      → Filled image lba p 1 buf buf'
  Filled-one lba p buf buf' h i =
      ground (arith, h i, same_word lba (lba + (i - p) / 256) (0 + (i - p)) ((i - p) % 256))
