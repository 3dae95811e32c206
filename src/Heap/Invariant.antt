-- ===== src/Heap/Invariant.antt =====
-- The invariant of the kernel's heap.
use xbay_os.Memory.Alloc.{IsKernel}
use xbay_os.Memory.{PoolFlags, page_size, pf_kernel, pf_user}
use xbay_os.Intr.{same}
use xbay_os.Heap.Count.{count_in}
use xbay_os.Heap.{Arena, Heap, arena_to_block, block_to_arena, cnt_at}
use xbay_os.Bitmap.Bits.{bit_at}
use xbay_os.Base.{
  ==_refl, Distinct, Option-cases, ap, arith, false, has, inl, inr, none, refl, some, true, update,
  ℕ, ◌*◌, ◌+◌, ◌<◌, ◌==◌, ◌≡◌, ◌⊎◌, Bool, Bool-cases, sym, ◌∙◌, ◌≤◌,
}

-- A free block lies in a small arena of its size, at the place of one of its blocks.
pub record IsBlock (h : Heap) (i b : ℕ) : Type 0 where
  pub header : Arena
  pub place : ℕ
  pub found : h.arena (block_to_arena b) ≡ some header
  pub small : header.large ≡ false
  pub kernel : header.flags ≡ pf_kernel
  pub sized : header.index ≡ i
  pub within : place < cnt_at i
  pub at : b ≡ arena_to_block (block_to_arena b) i place

-- An arena of the kernel stands on a page that is in use; its count is that of its free blocks.
pub record IsArena (h : Heap) (a : ℕ) (r : Arena) : Type 0 where
  pub page : ℕ
  pub at : a ≡ h.mem.kern_vaddr.vaddr_start + page * page_size
  pub in_range : page < 8 * h.mem.kern_vaddr.vaddr_bitmap.length
  pub used : bit_at h.mem.kern_vaddr.vaddr_bitmap page ≡ true
  pub counted :
      r.large ≡ false
      → (r.index < 7) × (r.cnt ≡ count_in a (h.kern_blocks r.index)) × (r.cnt ≤ cnt_at r.index)

-- The kernel runs on a good memory; the free blocks of a size are distinct blocks of small arenas of
-- that size; the kernel's arenas count their free blocks; those of the user lie below.
pub record IsHeap (h : Heap) : Type 0 where
  pub memory : IsKernel h.mem
  pub mode : h.mem.is_process ≡ false
  pub distinct : (i : ℕ) → Distinct (h.kern_blocks i)
  pub blocks : (i b : ℕ) → i < 7 → has b (h.kern_blocks i) ≡ true → IsBlock h i b
  pub arenas : (a : ℕ) (r : Arena) → h.arena a ≡ some r → r.flags ≡ pf_kernel → IsArena h a r
  pub users :
      (a : ℕ) (r : Arena)
      → h.arena a ≡ some r
      → r.flags ≡ pf_user
      → a < h.mem.kern_vaddr.vaddr_start

pub update_same {ℓ} : {A : Type ℓ} (f : ℕ → A) (a : ℕ) (v : A) → update f a v a ≡ v
update_same f a v = let t = ==_refl a in rw (t, update) refl

pub update_other {ℓ} :
    {A : Type ℓ} (f : ℕ → A) (a : ℕ) (v : A) (b : ℕ) → (b == a) ≡ false → update f a v b ≡ f b
update_other f a v b ne = rw (ne, update) refl

pub flags_cases : (t : PoolFlags) → (t ≡ pf_kernel) ⊎ (t ≡ pf_user)
flags_cases pf_kernel = inl refl
flags_cases pf_user = inr refl

bool_clash : (b c : Bool) → b ≡ c → b ≡ true → c ≡ false → ⊥
bool_clash b c e h g = cc

pub some_inj {ℓ} : {A : Type ℓ} (a b : A) → some a ≡ some b → a ≡ b
some_inj a b e = cc

-- A page of addresses that is free holds no arena.
pub page_blank :
    (h : Heap) (p : ℕ)
    → IsHeap h
    → p < 8 * h.mem.kern_vaddr.vaddr_bitmap.length
    → bit_at h.mem.kern_vaddr.vaddr_bitmap p ≡ false
    → h.arena (h.mem.kern_vaddr.vaddr_start + p * page_size) ≡ none
page_blank h p v lt free =
    elim (Option-cases (h.arena (h.mem.kern_vaddr.vaddr_start + p * page_size))) [
      | inl e ↦ e
      | inr (r, e) ↦ elim (flags_cases r.flags) [
        | inl k ↦
            let a = v.arenas _ r e k in
            let same : a.page ≡ p = omega (arith, a.at) in
            absurd (
              bool_clash _ _ (ap (λ (q : ℕ). bit_at h.mem.kern_vaddr.vaddr_bitmap q) same) a.used
                free)
        | inr u ↦ absurd (omega (arith, v.users _ r e u))
      ]
    ]

-- A header that differs in the count alone.
abbrev pub SameKind : Arena → Arena → Type 0
SameKind r r' = (r'.flags ≡ r.flags) × (r'.index ≡ r.index) × (r'.large ≡ r.large)

-- A block stays one when the header of an arena is given another count.
pub IsBlock-recount :
    (h h' : Heap) (a i c : ℕ) (r r' : Arena)
    → h.arena a ≡ some r
    → h'.arena ≡ update h.arena a (some r')
    → SameKind r r'
    → IsBlock h i c
    → IsBlock h' i c
IsBlock-recount h h' a i c r r' old new same b = elim (Bool-cases (block_to_arena c == a)) [
  | inl e ↦
      let at : block_to_arena c ≡ a = ground arith in
      let hd : b.header ≡ r = some_inj b.header r (sym b.found ∙ ap h.arena at ∙ old) in
      record {
        header = r';
        place = b.place;
        found = rw (new, at) (update_same h.arena a (some r'));
        small = same.2 ∙ ap (λ (x : Arena). x.large) (sym hd) ∙ b.small;
        kernel = same.0 ∙ ap (λ (x : Arena). x.flags) (sym hd) ∙ b.kernel;
        sized = same.1 ∙ ap (λ (x : Arena). x.index) (sym hd) ∙ b.sized;
        within = b.within;
        at = b.at;
      }
  | inr e ↦ record {
    header = b.header;
    place = b.place;
    found = rw new (update_other h.arena a (some r') (block_to_arena c) e ∙ b.found);
    small = b.small;
    kernel = b.kernel;
    sized = b.sized;
    within = b.within;
    at = b.at;
  }
]

pub kernel_not_user : pf_kernel ≡ pf_user → ⊥
kernel_not_user e = cc

pub some-none {ℓ} : {A : Type ℓ} (a : A) → some a ≡ none → ⊥
some-none a e = cc
