-- ===== src/Ext2/Dir/Tests.antt =====
-- Runs of the directory code on one block.
use dvivon_os.Base.{refl, ◌≡◌, none, some, [], ◌∷◌}
use dvivon_os.Str.{strlen, memcmp, memset, memcpy}
use dvivon_os.Base.Buf.{put16, get16, put32, get32, zeros, Buf}
use dvivon_os.Ext2.Dir.Find.{find-drop_entry, Dropped, Found}
use dvivon_os.Ext2.Dir.{drop_entry, find_entry}
use dvivon_os.Ext2.Entry.{put_entry}
use dvivon_os.Ext2.Dir.Ops.{dot_block}

abbrev two_entries : Buf
two_entries = dot_block 24 12 2 zeros

dots_found : find_entry (46 ∷ 46 ∷ []) 24 two_entries 24 none 0 ≡ some (some 0, 12)
unfolding find_entry dot_block put_entry get32 put32 get16 put16 memcpy memset memcmp strlen
dots_found = refl

find-drop_entry_example :
    Found (46 ∷ 46 ∷ []) 24 two_entries (some 0) 12
    × Dropped (46 ∷ 46 ∷ []) 24 two_entries (some 0) 12 (drop_entry (some 0) 12 two_entries)
find-drop_entry_example = find-drop_entry (46 ∷ 46 ∷ []) 24 two_entries (some 0) 12 dots_found
