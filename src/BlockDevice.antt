-- ===== src/BlockDevice.antt =====
-- src/drivers/block_device.c: the registry of block devices, an array of 16 pointers.
pub mod Registry
mod Tests
use dvivon_os.Base.{Option, none, ◌&&◌, ◌||◌, not, some, ◌-◌, ◌==◌, Bool, if◌then◌else◌, ◌^◌, ℕ}
use dvivon_os.Base.Buf.{update}
use dvivon_os.Base.Search.{find_from}

-- The fields of a `block_device_t` that the registry reads.
pub record BlockDevice : Type 0 where
  pub major : ℕ
  pub minor : ℕ
  pub ops : ℕ

abbrev pub max_block_devices : ℕ
max_block_devices = 16

-- `block_devices`: pointers, 0 for NULL.
abbrev pub Slots : Type 0
Slots = ℕ → ℕ

abbrev error : ℕ
error = 2 ^ 32 - 1

-- The pointer in the slot that a search found, or NULL.
abbrev pub slot_at : Slots → Option ℕ → ℕ
slot_at slots (some i) = slots i
slot_at slots none = 0

-- The devices behind the pointers.
module _ (device : ℕ → BlockDevice) where
  -- `block_device_register`
  unfoldable pub register : (dev : ℕ) → Slots → ℕ × Slots
  register dev slots =
      if (dev == 0) || ((device dev).ops == 0)
      then (error, slots)
      else elim (find_from (λ i. slots i == 0) 0 max_block_devices) [
        | some i ↦ (0, update slots i dev)
        | none ↦ (error, slots)
      ]

  -- `block_device_unregister`
  unfoldable pub unregister : (dev : ℕ) → Slots → ℕ × Slots
  unregister dev slots =
      if dev == 0
      then (error, slots)
      else elim (find_from (λ i. slots i == dev) 0 max_block_devices) [
        | some i ↦ (0, update slots i 0)
        | none ↦ (error, slots)
      ]

  -- The condition of `block_device_get` on one slot.
  abbrev pub is_match : (major minor : ℕ) → Slots → ℕ → Bool
  is_match major minor slots i =
      not (slots i == 0)
      && ((device (slots i)).major == major)
      && ((device (slots i)).minor == minor)

  -- `block_device_get`
  unfoldable pub get : (major minor : ℕ) → Slots → ℕ
  get major minor slots = slot_at slots (find_from (is_match major minor slots) 0 max_block_devices)
