-- ===== src/Fs/Tests.antt =====
-- A partition of the sample disk, inodes, a short bitmap and paths.
use xbay_os.Fs.Path.{path_depth, path_depth-first}
use xbay_os.Fs.Opened.{Opened}
use xbay_os.Fs.Layout.{init_super_block-Layout}
use xbay_os.Fs.{init_super_block}
use xbay_os.Bitmap.Bits.{IsBytes}
use xbay_os.Bitmap.{Bitmap}
use xbay_os.Base.{
  List, [], arith, hang, if◌then◌else◌, ok, refl, suc, ℕ, ◌*◌, ◌+◌, ◌==◌, ◌∷◌, ◌≡◌, ◌≤◌,
}

init_super_block-Layout_example :
    let sb = init_super_block 2048 8192 in
    (sb.fb_bmap_addr ≡ 2048 + 2)
    × (sb.in_bmap_addr ≡ sb.fb_bmap_addr + sb.fb_bmap_size)
    × (sb.in_array_addr ≡ sb.in_bmap_addr + sb.in_bmap_size)
    × (sb.in_array_addr + sb.in_array_size ≤ 2048 + 8192)
    × (2048 + 8192 ≤ sb.in_array_addr + sb.in_array_size + 4096 * sb.fb_bmap_size + 1)
    × (sb.data_start ≡ 2 * sb.in_array_addr)
init_super_block-Layout_example = init_super_block-Layout 2048 8192 (omega arith) (omega arith)

abbrev table : List Opened
table =
    record { addr = 0x5000; i_no = 0; open_cnt = 1 }
    ∷ record { addr = 0x6000; i_no = 9; open_cnt = 2 }
    ∷ []

abbrev bits : Bitmap
bits = record { length = 2; bits = λ i. if i == 0 then 0xff else 1 }

bits-IsBytes : IsBytes bits
bits-IsBytes i = ground arith

path_depth-first_example :
    ((fuel : ℕ) → path_depth (suc fuel) [] (0x2f ∷ 0x61 ∷ []) ≡ ok 0)
    × ((fuel : ℕ) → path_depth fuel [] (0x2f ∷ 0x61 ∷ 0x2f ∷ 0x62 ∷ []) ≡ hang)
path_depth-first_example = path_depth-first 0 0x61 [] (0x62 ∷ []) [] refl (omega arith)
