-- ===== src/BlockDevice/Tests.antt =====
-- Two devices, one of them registered.
use dvivon_os.Base.{arith, ◌≢◌, ◌<◌, ◌%◌, refl, ◌/◌, ◌≡◌, ℕ}
use dvivon_os.BlockDevice.Registry.{unregister-register}
use dvivon_os.BlockDevice.{unregister, BlockDevice, Slots, get, register}
use dvivon_os.Base.Buf.{update}
use dvivon_os.Base.Search.{find_from}

abbrev devices : ℕ → BlockDevice
devices p = record { major = p / 16; minor = p % 16; ops = 1 }

abbrev one_slot : Slots
one_slot = update (λ i. 0) 0 0x31

registers : (register devices 0x32 one_slot).0 ≡ 0
unfolding register find_from
registers = refl

is_new : get devices 3 2 one_slot ≡ 0
unfolding get find_from
is_new = refl

is_absent : (j : ℕ) → j < 16 → one_slot j ≢ 0x32
is_absent j lt e = ground arith

unregister-register_example :
    ((unregister devices 0x32 (register devices 0x32 one_slot).1).0 ≡ 0)
    × ((j : ℕ) → (unregister devices 0x32 (register devices 0x32 one_slot).1).1 j ≡ one_slot j)
unregister-register_example = unregister-register devices 0x32 one_slot registers is_absent
