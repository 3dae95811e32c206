-- ===== src/Proc/Space.antt =====
-- The page directory of a new process.
use xbay_os.Base.Update.{update-here, update-other}
use xbay_os.Base.{
  arith, ok, refl, some, suc, zero, ℕ, ◌%◌, ◌*◌, ◌+◌, ◌/◌, ◌<◌, ◌^◌, ◌≡◌, ◌≤◌, ◌⊎◌, ap, u32, update,
  inl, inr, ◌∙◌, ◌-◌,
}
use xbay_os.Proc.{copy_words, create_page_dir}
use xbay_os.Memory.{Mem, entry_of, get_kern_pages, pde_ptr, vaddr_to_phy, pte_ptr}

copy_words_out :
    (n d s : ℕ) (word : ℕ → ℕ) (a : ℕ)
    → (a < d) ⊎ (d + 4 * n ≤ a)
    → copy_words n d s word a ≡ word a
unfolding copy_words
copy_words_out zero d s word a out = refl
copy_words_out (suc n) d s word a out =
    copy_words_out n (d + 4) (s + 4) (update word d (word s)) a (ground (arith, out))
    ∙ update-other word d (word s) a (λ q. ground (arith, out, q))

-- copy_words writes the words of src to dest, if src lies behind.
copy_words_in :
    (n d s : ℕ) (word : ℕ → ℕ)
    → d + 4 * n ≤ s
    → (i : ℕ) → i < n
    → copy_words n d s word (d + 4 * i) ≡ word (s + 4 * i)
unfolding copy_words
copy_words_in zero d s word apart i lt = absurd (omega (arith, lt))
copy_words_in (suc n) d s word apart zero lt =
    let e : d + 4 * 0 ≡ d = omega arith in
    let f : s ≡ s + 4 * 0 = omega arith in
    ap (copy_words (suc n) d s word) e
    ∙ copy_words_out n (d + 4) (s + 4) (update word d (word s)) d (inl (omega arith))
    ∙ update-here word d (word s)
    ∙ ap word f
copy_words_in (suc n) d s word apart (suc i) lt =
    let e : d + 4 * suc i ≡ d + 4 + 4 * i = omega arith in
    let f : s + 4 + 4 * i ≡ s + 4 * suc i = omega arith in
    let w = update word d (word s) in
    ap (copy_words n (d + 4) (s + 4) w) e
    ∙ copy_words_in n (d + 4) (s + 4) w (omega (arith, apart)) i (omega (arith, lt))
    ∙ update-other word d (word s) (s + 4 + 4 * i) (λ q. omega (arith, apart, q))
    ∙ ap word f

-- In the directory that create_page_dir fills, every address of the kernel's gigabyte below the window
-- of the page tables has the kernel's own entry, the last entry is that of the directory itself, and
-- the entries of user addresses are as get_kern_pages left them, as is every word outside the
-- directory. get_kern_pages is to find a page, below the window and at a multiple of 4096.
pub create_page_dir-pde_ptr :
    (m m1 : Mem) (dir : ℕ)
    → get_kern_pages 1 m ≡ ok (some dir, m1)
    → dir % 2 ^ 12 ≡ 0
    → dir + 2 ^ 12 ≤ 0xffc0_0000
    → (m' : Mem) × (create_page_dir m ≡ ok (dir, m'))
      × ((vaddr : ℕ)
          → 0xc000_0000 ≤ vaddr
          → vaddr < 0xffc0_0000
          → m'.word (dir + vaddr / 2 ^ 22 * 4) ≡ m1.word (pde_ptr vaddr))
      × (m'.word (dir + 1023 * 4) ≡ entry_of (vaddr_to_phy m1.word dir))
      × ((vaddr : ℕ)
          → vaddr < 0xc000_0000
          → m'.word (dir + vaddr / 2 ^ 22 * 4) ≡ m1.word (dir + vaddr / 2 ^ 22 * 4))
      × ((a : ℕ) → (a < dir) ⊎ (dir + 2 ^ 12 ≤ a) → m'.word a ≡ m1.word a)
unfolding create_page_dir
create_page_dir-pde_ptr m m1 dir got page low =
    let start : u32 (dir + 0x300 * 4) ≡ dir + 0x300 * 4 = omega (arith, low) in
    let src = 0xffff_f000 + 0x300 * 4 in
    let others = copy_words_out 256 (dir + 0x300 * 4) src m1.word in
    let w = copy_words 256 (dir + 0x300 * 4) src m1.word in
    let v = entry_of (vaddr_to_phy w dir) in
    let last = dir + 1023 * 4 in
    let phys : vaddr_to_phy w dir ≡ vaddr_to_phy m1.word dir =
      ap (λ x. u32 (x / 2 ^ 12 * 2 ^ 12 + dir % 2 ^ 12))
        (others (pte_ptr dir) (inr (omega (arith, low)))) in
    (
      record m1 { word = update w last v },
      rw (got, start) refl,
      λ vaddr above below.
          let i = vaddr / 2 ^ 22 - 0x300 in
          let at : dir + vaddr / 2 ^ 22 * 4 ≡ dir + 0x300 * 4 + 4 * i = omega (arith, above) in
          let of : src + 4 * i ≡ pde_ptr vaddr = omega (arith, above, below) in
          update-other w last v (dir + vaddr / 2 ^ 22 * 4) (λ q. omega (arith, below, q))
          ∙ ap w at
          ∙ copy_words_in 256 (dir + 0x300 * 4) src m1.word (omega (arith, low)) i
              (omega (arith, below))
          ∙ ap m1.word of,
      update-here w last v ∙ ap entry_of phys,
      λ vaddr user.
          update-other w last v (dir + vaddr / 2 ^ 22 * 4) (λ q. omega (arith, user, q))
          ∙ others (dir + vaddr / 2 ^ 22 * 4) (inl (omega (arith, user))),
      λ a out.
          update-other w last v a (λ q. ground (arith, out, q)) ∙ others a (ground (arith, out)),
    )
