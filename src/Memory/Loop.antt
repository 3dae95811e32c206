-- ===== src/Memory/Loop.antt =====
-- The loop of malloc_page for the kernel: frames are taken and mapped one after the other.
use xbay_os.Memory.Mapping.{page_table_add-Translated, with_entry, Translated}
use xbay_os.Bitmap.{Bitmap}
use xbay_os.Thread.Pick.{rest}
use xbay_os.Memory.Frames.{IsPool, frame_at, palloc-first, IsPool-flip, Taken, with_bitmap}
use xbay_os.Memory.Address.{window}
use xbay_os.Memory.{
  Mem, Pool, page_loop, page_size, pde_ptr, pf_kernel, present, pte_ptr, vaddr_to_phy,
}
use xbay_os.Bitmap.Bits.{bit_at}
use xbay_os.Base.{
  Bool, Distinct, List, [], false, has, if◌then◌else◌, inl, inr, length, ok, suc, true, zero, ℕ,
  ◌%◌, ◌*◌, ◌+◌, ◌<◌, ◌^◌, ◌||◌, ◌∷◌, ◌≡◌, ◌≤◌, ◌⊎◌, arith, refl, ◌/◌, ◌∙◌, ==_refl, ◌==◌, ap,
}

-- The pages from vaddr on are mapped to the listed frames, one after the other.
abbrev pub Maps : (word : ℕ → ℕ) → (phy_addr_start vaddr : ℕ) → List ℕ → Type 0
Maps word phy vaddr [] = Unit
Maps word phy vaddr (f ∷ fs) =
    (present (word (pte_ptr vaddr)) ≡ true)
    × ((o : ℕ) → o < page_size → vaddr_to_phy word (vaddr + o) ≡ frame_at phy f + o)
    × Maps word phy (vaddr + page_size) fs

-- The frames were free, and are the only ones whose bits have changed.
pub record Used (po : Pool) (fs : List ℕ) (po' : Pool) : Type 0 where
  pub distinct : Distinct fs
  pub were_free : (f : ℕ) → has f fs ≡ true → bit_at po.pool_bitmap f ≡ false
  pub in_range : (f : ℕ) → has f fs ≡ true → f < po.pool_bitmap.length * 8
  pub set_now : (q : ℕ) → bit_at po'.pool_bitmap q ≡ (has q fs || bit_at po.pool_bitmap q)
  pub same_start : po'.phy_addr_start ≡ po.phy_addr_start
  pub same_depth : po'.depth ≡ po.depth
  pub same_length : po'.pool_bitmap.length ≡ po.pool_bitmap.length
  pub pool : IsPool po'

Used-cons :
    (po po' : Pool) (f : ℕ) (bm : Bitmap) (fs : List ℕ)
    → Taken po f bm
    → Used (with_bitmap bm po) fs po'
    → Used po (f ∷ fs) po'
Used-cons po po' f bm fs (within, free, before, flip) u = record {
  distinct = (ground (arith, u.were_free f, flip.2 f, ==_refl f), u.distinct);
  were_free = λ g h. ground (arith, h, u.were_free g, flip.2 g, free);
  in_range = λ g h. ground (arith, h, u.in_range g, flip.1, within);
  set_now = λ q. ground (arith, u.set_now q, flip.2 q);
  same_start = u.same_start;
  same_depth = u.same_depth;
  same_length = u.same_length ∙ flip.1;
  pool = u.pool;
}

-- The tables of two states differ at most in the entries of the pages from lo up to hi.
pub record Beside (lo hi : ℕ) (word word' : ℕ → ℕ) : Type 0 where
  pub entries :
      (v : ℕ)
      → v < window
      → (v / page_size < lo / page_size) ⊎ (hi ≤ v)
      → word' (pte_ptr v) ≡ word (pte_ptr v)
  pub directory : (v : ℕ) → v < 2 ^ 32 → word' (pde_ptr v) ≡ word (pde_ptr v)

-- All but the frames and the tables.
abbrev pub SameRest : Mem → Mem → Type 0
SameRest m m' =
    (m'.user_pool ≡ m.user_pool)
    × (m'.kern_vaddr ≡ m.kern_vaddr)
    × (m'.user_vaddr ≡ m.user_vaddr)
    × (m'.is_process ≡ m.is_process)

-- What the loop of malloc_page does: all pages are mapped, or the frames ran out.
pub record Looped (left vaddr : ℕ) (m : Mem) (b : Bool) (m' : Mem) : Type 0 where
  pub taken : List ℕ
  pub used : Used m.kern_pool taken m'.kern_pool
  pub maps : Maps m'.word m'.kern_pool.phy_addr_start vaddr taken
  pub rest : SameRest m m'
  pub beside : Beside vaddr (vaddr + page_size * left) m.word m'.word
  pub complete :
      if b
      then (length taken ≡ left)
      else ((q : ℕ)
          → q < m.kern_pool.pool_bitmap.length * 8
          → bit_at m'.kern_pool.pool_bitmap q ≡ true)

-- The tables exist for the pages from vaddr on, and do not map them.
pub record IsBlank (left vaddr : ℕ) (word : ℕ → ℕ) : Type 0 where
  pub aligned : vaddr % page_size ≡ 0
  pub top : vaddr + page_size * left ≤ window
  pub tables :
      (v : ℕ) → vaddr ≤ v → v < vaddr + page_size * left → present (word (pde_ptr v)) ≡ true
  pub unmapped :
      (v : ℕ)
      → vaddr ≤ v
      → v < vaddr + page_size * left
      → v % page_size ≡ 0
      → present (word (pte_ptr v)) ≡ false

used_none : (po : Pool) → IsPool po → Used po [] po
used_none po v = record {
  distinct = tt;
  were_free = λ f h. cc;
  in_range = λ f h. absurd (ground (arith, h));
  set_now = λ q. refl;
  same_start = refl;
  same_depth = refl;
  same_length = refl;
  pool = v;
}

IsBlank-next :
    (left vaddr phy : ℕ) (word word' : ℕ → ℕ)
    → IsBlank (suc left) vaddr word
    → Translated vaddr phy word word'
    → IsBlank left (vaddr + page_size) word'
IsBlank-next left vaddr phy word word' blank tr =
    let top : vaddr + page_size * suc left ≤ window = blank.top in
    record {
      aligned = omega (arith, blank.aligned);
      top = omega (arith, top);
      tables =
          λ v lo hi. rw (tr.3 v (omega (arith, top))) (blank.tables v (omega arith) (omega arith));
      unmapped = λ v lo hi al.
          let ne : (v / page_size == vaddr / page_size) ≡ false = ground (arith, blank.aligned) in
          rw (tr.2 v (omega (arith, top)) ne) (blank.unmapped v (omega arith) (omega arith) al);
    }

complete_cons :
    (b : Bool) (n left k k' : ℕ) (bit_of : ℕ → Bool)
    → k ≡ k'
    → (if b then (n ≡ left) else ((q : ℕ) → q < k * 8 → bit_of q ≡ true))
    → (if b then (suc n ≡ suc left) else ((q : ℕ) → q < k' * 8 → bit_of q ≡ true))
complete_cons true n left k k' bit_of e h = omega (arith, h)
complete_cons false n left k k' bit_of e h = λ q lt. h q (omega (arith, e))

Looped-cons :
    (left vaddr f : ℕ) (bm : Bitmap) (m m2 : Mem) (b : Bool) (m' : Mem)
    → IsBlank (suc left) vaddr m.word
    → Taken m.kern_pool f bm
    → m2.kern_pool ≡ with_bitmap bm m.kern_pool
    → SameRest m m2
    → Translated vaddr (frame_at m.kern_pool.phy_addr_start f) m.word m2.word
    → Looped left (vaddr + page_size) m2 b m'
    → Looped (suc left) vaddr m b m'
Looped-cons left vaddr f bm m m2 b m' blank taken pool rest tr l =
    let top : vaddr + page_size * suc left ≤ window = blank.top in
    let used : Used (with_bitmap bm m.kern_pool) l.taken m'.kern_pool = rw pool at l.used in
    let starts : m'.kern_pool.phy_addr_start ≡ m.kern_pool.phy_addr_start =
      l.used.same_start ∙ ap (λ (p : Pool). p.phy_addr_start) pool in
    let mine : m'.word (pte_ptr vaddr) ≡ m2.word (pte_ptr vaddr) =
      l.beside.entries vaddr (omega (arith, top)) (inl (omega (arith, blank.aligned))) in
    record {
      taken = f ∷ l.taken;
      used = Used-cons m.kern_pool m'.kern_pool f bm l.taken taken used;
      maps = (
        rw mine tr.0,
        (λ o lt.
            let w : m'.word (pte_ptr (vaddr + o)) ≡ m2.word (pte_ptr (vaddr + o)) =
              l.beside.entries (vaddr + o) (omega (arith, top))
                (inl (omega (arith, blank.aligned))) in
            let t = tr.1 (vaddr + o) (omega (arith, top)) (omega (arith, blank.aligned)) in
            rw (w, starts) (t ∙ omega (arith, blank.aligned))),
        l.maps,
      );
      rest = (l.rest.0 ∙ rest.0, l.rest.1 ∙ rest.1, l.rest.2 ∙ rest.2, l.rest.3 ∙ rest.3);
      beside = record {
        entries = λ v lt side.
            l.beside.entries v lt (ground (arith, side))
            ∙ tr.2 v (omega arith) (ground (arith, side, blank.aligned));
        directory = λ v lt. l.beside.directory v lt ∙ tr.3 v lt;
      };
      complete =
          complete_cons b (length l.taken) left m2.kern_pool.pool_bitmap.length
            m.kern_pool.pool_bitmap.length (bit_at m'.kern_pool.pool_bitmap)
            (ap (λ (p : Pool). p.pool_bitmap.length) pool ∙ taken.3.1) l.complete;
    }

pub page_loop-Looped :
    (left vaddr : ℕ) (m : Mem)
    → IsPool m.kern_pool
    → IsBlank left vaddr m.word
    → (b : Bool) × (m' : Mem) × (page_loop left pf_kernel vaddr m ≡ ok (b, m'))
      × Looped left vaddr m b m'
unfolding page_loop
page_loop-Looped zero vaddr m pool blank = (
  true,
  m,
  refl,
  record {
    taken = [];
    used = used_none m.kern_pool pool;
    maps = tt;
    rest = (refl, refl, refl, refl);
    beside = record { entries = λ v h a. refl; directory = λ v h. refl };
    complete = refl;
  },
)
page_loop-Looped (suc left) vaddr m pool blank = elim (palloc-first m.kern_pool pool) [
  | inl (e, all) ↦ (
    false,
    m,
    rw e refl,
    record {
      taken = [];
      used = used_none m.kern_pool pool;
      maps = tt;
      rest = (refl, refl, refl, refl);
      beside = record { entries = λ v h a. refl; directory = λ v h. refl };
      complete = all;
    },
  )
  | inr (f, bm, e, taken) ↦
      let m1 = record m { kern_pool = with_bitmap bm m.kern_pool } in
      let phy = frame_at m.kern_pool.phy_addr_start f in
      let below : vaddr < window = omega (arith, blank.top) in
      let m2 = with_entry vaddr phy m1 in
      let (add, tr) =
        page_table_add-Translated vaddr phy m1 below (omega (arith, pool.aligned))
          (omega (arith, pool.within, taken.0)) (blank.tables vaddr (omega arith) (omega arith))
          (blank.unmapped vaddr (omega arith) (omega arith) blank.aligned) in
      let next : (vaddr + page_size) % 2 ^ 32 ≡ vaddr + page_size = omega (arith, blank.top) in
      let (b, m', run, l) =
        page_loop-Looped left (vaddr + page_size) m2
          (IsPool-flip m.kern_pool bm f true pool taken.3)
          (IsBlank-next left vaddr phy m.word m2.word blank tr) in
      (
        b,
        m',
        rw (e, add, next, run) refl,
        Looped-cons left vaddr f bm m m2 b m' blank taken refl (refl, refl, refl, refl) tr l,
      )
]
