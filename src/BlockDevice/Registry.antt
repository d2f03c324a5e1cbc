-- ===== src/BlockDevice/Registry.antt =====
-- The operations of the registry together, src/drivers/block_device.c.
use dvivon_os.Base.{
  subst, ap, refl, ==_iff, arith, inr, inl, Option-cases, false, ◌||◌, Bool-cases, ◌<◌, ◌≢◌, ◌==◌,
  ◌≡◌, Bool, ℕ, sym, ==_refl, ==_of_ne, ◌∙◌, true,
}
use dvivon_os.BlockDevice.{unregister, slot_at, is_match, get, register, Slots, BlockDevice}
use dvivon_os.Base.Search.{find_from-some, find_from-none, find_from}
use dvivon_os.Base.Buf.{update}
use mathlib.Core.Bool.{false≢true}

restored :
    (slots : Slots) (i k dev j : ℕ)
    → k ≡ i
    → slots i ≡ 0
    → update (update slots i dev) k 0 j ≡ slots j
restored slots i k dev j same is_empty = elim (Bool-cases (j == i)) [
  | inl t ↦ rw (same, t) (sym (ap slots ((==_iff j i).0 t) ∙ is_empty))
  | inr f ↦ rw (same, f) refl
]

module _ (device : ℕ → BlockDevice) (dev : ℕ) (slots : Slots) where
  abbrev empty : ℕ → Bool
  empty i = slots i == 0

  register_lem :
      (register device dev slots).0 ≡ 0
      → (dev ≢ 0)
        × ((i : ℕ) × (i < 16)
            × (slots i ≡ 0)
            × ((register device dev slots).1 ≡ update slots i dev))
  unfolding register
  register_lem e = elim (Bool-cases ((dev == 0) || ((device dev).ops == 0))) [
    | inl t ↦ absurd (omega (arith, rw t at e))
    | inr f ↦ elim (Option-cases (find_from empty 0 16)) [
      | inl full ↦ absurd (omega (arith, rw (f, full) at e))
      | inr (i, found) ↦
          let (lo, hi, is_empty, _) = find_from-some empty 0 16 found in
          ((λ z. ground arith), (i, omega arith, (==_iff _ _).0 is_empty, rw (f, found) refl))
    ]
  ]

  abbrev major : ℕ
  major = (device dev).major

  abbrev minor : ℕ
  minor = (device dev).minor

  unmatched :
      get device major minor slots ≡ 0
      → (j : ℕ) → j < 16
      → is_match device major minor slots j ≡ false
  unfolding get
  unmatched e j lt = elim (Option-cases (find_from (is_match device major minor slots) 0 16)) [
    | inl nothing ↦
        find_from-none (is_match device major minor slots) 0 16 nothing j (omega arith)
          (omega arith)
    | inr (k, found) ↦
        let (_, _, hit, _) = find_from-some (is_match device major minor slots) 0 16 found in
        let z : slots k ≡ 0 = sym (ap (slot_at slots) found) ∙ e in absurd (ground arith)
  ]

  -- A device that `block_device_register` accepted is the one that `block_device_get` finds under its
  -- numbers, when none was found under them before.
  pub get-register :
      (register device dev slots).0 ≡ 0
      → get device major minor slots ≡ 0
      → get device major minor (register device dev slots).1 ≡ dev
  unfolding get
  get-register e free =
      let (nonzero, (i, lt, is_empty, same)) = register_lem e in
      let after = update slots i dev in
      let test = is_match device major minor after in
      let here : test i ≡ true =
        rw (==_refl i, ==_of_ne dev 0 nonzero, ==_refl major, ==_refl minor) refl in
      rw same (elim (Option-cases (find_from test 0 16)) [
        | inl nothing ↦ absurd (
            false≢true
              (sym (find_from-none test 0 16 nothing i (omega arith) (omega arith)) ∙ here))
        | inr (k, found) ↦
            let (_, hi, hit, _) = find_from-some test 0 16 found in
            ap (slot_at after) found ∙ elim (Bool-cases (k == i)) [
              | inl t ↦ rw t refl
              | inr f ↦ absurd (false≢true (sym (unmatched free k (omega arith)) ∙ rw f at hit))
            ]
      ])

  abbrev Restores : Slots → Type 0
  Restores t =
      let (status, slots') = unregister device dev t in
      (status ≡ 0) × ((j : ℕ) → slots' j ≡ slots j)

  unregister-Restores :
      (i : ℕ)
      → dev ≢ 0
      → i < 16
      → slots i ≡ 0
      → ((j : ℕ) → j < 16 → slots j ≢ dev)
      → Restores (update slots i dev)
  unfolding unregister
  unregister-Restores i nonzero lt is_empty absent =
      let after = update slots i dev in
      let test = λ (j : ℕ). after j == dev in
      let here : test i ≡ true = rw (==_refl i) (==_refl dev) in
      elim (Option-cases (find_from test 0 16)) [
        | inl nothing ↦ absurd (
            false≢true
              (sym (find_from-none test 0 16 nothing i (omega arith) (omega arith)) ∙ here))
        | inr (k, found) ↦
            let (_, hi, hit, _) = find_from-some test 0 16 found in
            elim (Bool-cases (k == i)) [
              | inl t ↦
                  rw (==_of_ne dev 0 nonzero, found)
                    (refl, λ j. restored slots i k dev j ((==_iff k i).0 t) is_empty)
              | inr f ↦ absurd (absent k (omega arith) ((==_iff _ _).0 (rw f at hit)))
            ]
      ]

  -- When a device that stood in no slot was accepted, `block_device_unregister` finds it, and leaves
  -- every slot as it was before.
  pub unregister-register :
      (register device dev slots).0 ≡ 0
      → ((j : ℕ) → j < 16 → slots j ≢ dev)
      → (let (status, slots') = unregister device dev (register device dev slots).1 in
          (status ≡ 0) × ((j : ℕ) → slots' j ≡ slots j))
  unregister-register e absent =
      let (nonzero, (i, lt, is_empty, same)) = register_lem e in
      subst Restores (sym same) (unregister-Restores i nonzero lt is_empty absent)
