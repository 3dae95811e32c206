-- ===== src/Heap/Cut.antt =====
-- The blocks of a new arena, in order.
use xbay_os.Memory.{page_size}
use xbay_os.Heap.Sizes.{arena_to_block_lem, block_room, size_at-bounds}
use xbay_os.Heap.Count.{count_in}
use xbay_os.Heap.{arena_bytes, arena_to_block, block_to_arena, cnt_at, cut_loop, size_at}
use xbay_os.Base.{
  Bool-cases, Distinct, List, [], ap, arith, false, has, inl, inr, ok, refl, suc, sym, true, zero,
  ℕ, ◌%◌, ◌*◌, ◌++◌, ◌+◌, ◌<◌, ◌==◌, ◌^◌, ◌∙◌, ◌∷◌, ◌≡◌, ◌≤◌, has-append,
}
use mathlib.Core.List.{append-nil, append_assoc}
use native.Mathlib.Nat.{add-mul, mul-le-mul_right}

abbrev pub cut : (left a i idx : ℕ) → List ℕ
cut zero a i idx = []
cut (suc left) a i idx = arena_to_block a i idx ∷ cut left a i (idx + 1)

module _ (a i : ℕ) (al : a % page_size ≡ 0) (top : a + page_size ≤ 2 ^ 32) (hi : i < 7) where
  -- Blocks do not overlap.
  pub arena_to_block-lt :
      (j k : ℕ) → j < k → k < cnt_at i → arena_to_block a i j + size_at i ≤ arena_to_block a i k
  arena_to_block-lt j k lt hk =
      let room = block_room i k hi hk in
      let e : (j + 1) * size_at i ≡ j * size_at i + 1 * size_at i = add-mul j 1 (size_at i) in
      let lt' : j + 1 ≤ k = omega arith in
      let le : (j + 1) * size_at i ≤ k * size_at i = mul-le-mul_right (size_at i) lt' in
      let x = j * size_at i in
      let y = k * size_at i in
      let s = size_at-bounds i hi in
      let xy : x + size_at i ≤ y = omega (arith, e, le) in
      let u : (a + arena_bytes + x) % 2 ^ 32 ≡ a + arena_bytes + x = omega (arith, room, xy, s.0) in
      let v : (a + arena_bytes + y) % 2 ^ 32 ≡ a + arena_bytes + y = omega (arith, room, s.0) in
      rw (u, v) (omega (arith, xy))

  pub has-cut :
      (left idx b : ℕ)
      → has b (cut left a i idx) ≡ true
      → (k : ℕ) × (idx ≤ k) × (k < idx + left) × (b ≡ arena_to_block a i k)
  has-cut zero idx b h = cc
  has-cut (suc left) idx b h = elim (Bool-cases (b == arena_to_block a i idx)) [
    | inl e ↦ (idx, omega arith, omega arith, ground arith)
    | inr e ↦
        let (k, lo, up, eq) = has-cut left (idx + 1) b (ground (arith, h)) in
        (k, omega arith, omega arith, eq)
  ]

  later_out :
      (left idx j : ℕ)
      → j < idx
      → idx + left ≤ cnt_at i
      → has (arena_to_block a i j) (cut left a i idx) ≡ false
  later_out left idx j lt le = elim (Bool-cases (has (arena_to_block a i j) (cut left a i idx))) [
    | inl h ↦
        let (k, lo, up, eq) = has-cut left idx (arena_to_block a i j) h in
        let l = arena_to_block-lt j k (omega arith) (omega arith) in
        let s = size_at-bounds i hi in absurd (omega (arith, l, eq, s.0))
    | inr h ↦ h
  ]

  pub cut-Distinct : (left idx : ℕ) → idx + left ≤ cnt_at i → Distinct (cut left a i idx)
  cut-Distinct zero idx h = tt
  cut-Distinct (suc left) idx h = (
    later_out left (idx + 1) idx (omega arith) (omega arith),
    cut-Distinct left (idx + 1) (omega arith),
  )

  pub count_in-cut : (left idx : ℕ) → idx + left ≤ cnt_at i → count_in a (cut left a i idx) ≡ left
  count_in-cut zero idx h = refl
  count_in-cut (suc left) idx h =
      let inside = arena_to_block_lem a i idx al top hi (omega arith) in
      let here : (block_to_arena (arena_to_block a i idx) == a) ≡ true = ground (arith, inside.2) in
      rw here (omega (arith, count_in-cut left (idx + 1) (omega arith)))

  -- The assertions of the loop hold, and it appends the blocks.
  pub cut_loop-cut :
      (left idx : ℕ) (bs : List ℕ)
      → idx + left ≤ cnt_at i
      → ((k : ℕ) → idx ≤ k → k < cnt_at i → has (arena_to_block a i k) bs ≡ false)
      → cut_loop left a i idx bs ≡ ok (bs ++ cut left a i idx)
  unfolding cut_loop
  cut_loop-cut zero idx bs h out = ap ok (sym (append-nil bs))
  cut_loop-cut (suc left) idx bs h out =
      let here = out idx (omega arith) (omega arith) in
      let b = arena_to_block a i idx in
      let rest = cut_loop-cut left (idx + 1) (bs ++ b ∷ []) (omega arith) (λ k lo up.
        let l = arena_to_block-lt idx k (omega arith) up in
        let s = size_at-bounds i hi in
        let ne : (arena_to_block a i k == b) ≡ false = ground (arith, l, s.0) in
        let old = out k (omega arith) up in
        rw (has-append (arena_to_block a i k) bs (b ∷ []), old, ne) refl) in
      rw here (rest ∙ ap ok (append_assoc bs (b ∷ []) (cut left a i (idx + 1))))
