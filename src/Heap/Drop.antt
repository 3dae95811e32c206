-- ===== src/Heap/Drop.antt =====
-- Blocks taken out of a list of free blocks, and how many of an arena it can hold.
use xbay_os.Heap.Count.{count_in, count_in-zero}
use xbay_os.Heap.{arena_to_block, block_to_arena, drop_block, drop_loop}
use xbay_os.Base.{
  Bool-cases, Distinct, List, [], ap, arith, false, has, if◌then◌else◌, inl, inr, refl, suc, sym,
  true, zero, ℕ, ◌+◌, ◌<◌, ◌==◌, ◌∙◌, ◌∷◌, ◌≡◌, ◌≤◌,
}

pub has-drop_block : (b c : ℕ) (bs : List ℕ) → has c (drop_block b bs) ≡ true → has c bs ≡ true
has-drop_block b c [] h = cc
has-drop_block b c (d ∷ ds) h = elim (Bool-cases (b == d)) [
  | inl e ↦ ground (arith, h)
  | inr e ↦ elim (Bool-cases (c == d)) [
    | inl s ↦ ground (arith, s)
    | inr s ↦ ground (arith, h, s, e, has-drop_block b c ds)
  ]
]

pub has-drop_other :
    (b c : ℕ) (bs : List ℕ) → (c == b) ≡ false → has c bs ≡ true → has c (drop_block b bs) ≡ true
has-drop_other b c [] ne h = cc
has-drop_other b c (d ∷ ds) ne h =
    let rest = has-drop_other b c ds ne in
    elim (Bool-cases (b == d)) [ inl e ↦ ground arith | inr e ↦ ground arith ]

-- Without repetition, the block is gone.
pub drop_block-gone : (b : ℕ) (bs : List ℕ) → Distinct bs → has b (drop_block b bs) ≡ false
drop_block-gone b [] d = refl
drop_block-gone b (c ∷ cs) d =
    let rest = drop_block-gone b cs d.1 in
    elim (Bool-cases (b == c)) [
      | inl e ↦ let e' : b ≡ c = ground arith in rw (e, ap (λ (x : ℕ). has x cs) e') d.0
      | inr e ↦ rw e (rw e rest)
    ]

pub drop_block-Distinct : (b : ℕ) (bs : List ℕ) → Distinct bs → Distinct (drop_block b bs)
drop_block-Distinct b [] d = tt
drop_block-Distinct b (c ∷ cs) d = elim (Bool-cases (b == c)) [
  | inl e ↦ rw e d.1
  | inr e ↦ rw e (
    elim (Bool-cases (has c (drop_block b cs))) [
      | inl t ↦ let o = has-drop_block b c cs t in absurd (ground (arith, d.0))
      | inr t ↦ t
    ],
    drop_block-Distinct b cs d.1,
  )
]

pub count_in-drop_block : (a b : ℕ) (bs : List ℕ) → count_in a bs ≤ 1 + count_in a (drop_block b bs)
count_in-drop_block a b [] = omega arith
count_in-drop_block a b (c ∷ cs) =
    let rest = count_in-drop_block a b cs in
    elim (Bool-cases (b == c)) [ inl e ↦ rw e (grind arith) | inr e ↦ rw e (omega (arith, rest)) ]

pub count_in-drop_other :
    (a b : ℕ) (bs : List ℕ)
    → (block_to_arena b == a) ≡ false
    → count_in a (drop_block b bs) ≡ count_in a bs
count_in-drop_other a b [] ne = refl
count_in-drop_other a b (c ∷ cs) ne =
    let rest = count_in-drop_other a b cs ne in
    elim (Bool-cases (b == c)) [
      | inl e ↦
          let e' : block_to_arena b ≡ block_to_arena c =
            ap block_to_arena (let q : b ≡ c = ground arith in q) in
          let out : (block_to_arena c == a) ≡ false = rw e' at ne in rw (e, out) (omega arith)
      | inr e ↦ rw e (ap (λ (n : ℕ). (if block_to_arena c == a then 1 else 0) + n) rest)
    ]

-- A list without repetition whose blocks in the arena are at its first n places has at most n.
pub count_in-top :
    (a i n : ℕ) (bs : List ℕ)
    → Distinct bs
    → ((b : ℕ)
        → has b bs ≡ true
        → (block_to_arena b == a) ≡ true
        → (k : ℕ) × (k < n) × (b ≡ arena_to_block a i k))
    → count_in a bs ≤ n
count_in-top a i zero bs d places =
    let none_in = count_in-zero a bs (λ b t. elim (Bool-cases (block_to_arena b == a)) [
      | inl e ↦ let (k, lt, _) = places b t e in absurd (omega (arith, lt))
      | inr e ↦ e
    ]) in
    omega (arith, none_in)
count_in-top a i (suc n) bs d places =
    let last = arena_to_block a i n in
    let less = count_in-drop_block a last bs in
    let rest = count_in-top a i n (drop_block last bs) (drop_block-Distinct last bs d) (λ b t e.
      let (k, lt, at) = places b (has-drop_block last b bs t) e in
      elim (Bool-cases (k == n)) [
        | inl s ↦
            let same : b ≡ last =
              at ∙ ap (arena_to_block a i) (let q : k ≡ n = ground arith in q) in
            let gone = drop_block-gone last bs d in
            let t' : has last (drop_block last bs) ≡ true =
              ap (λ (x : ℕ). has x (drop_block last bs)) (sym same) ∙ t in
            absurd (ground (arith, t', gone))
        | inr s ↦ (k, ground (arith, lt, s), at)
      ]) in
    omega (arith, less, rest)

pub has-drop_loop :
    (n a i idx c : ℕ) (bs : List ℕ) → has c (drop_loop n a i idx bs) ≡ true → has c bs ≡ true
has-drop_loop zero a i idx c bs h = h
has-drop_loop (suc n) a i idx c bs h =
    has-drop_block (arena_to_block a i idx) c bs
      (has-drop_loop n a i (idx + 1) c (drop_block (arena_to_block a i idx) bs) h)

pub drop_loop-Distinct :
    (n a i idx : ℕ) (bs : List ℕ) → Distinct bs → Distinct (drop_loop n a i idx bs)
drop_loop-Distinct zero a i idx bs d = d
drop_loop-Distinct (suc n) a i idx bs d =
    drop_loop-Distinct n a i (idx + 1) (drop_block (arena_to_block a i idx) bs)
      (drop_block-Distinct (arena_to_block a i idx) bs d)

-- The blocks that the loop goes through are gone.
pub drop_loop-gone :
    (n a i idx k : ℕ) (bs : List ℕ)
    → Distinct bs
    → idx ≤ k
    → k < idx + n
    → has (arena_to_block a i k) (drop_loop n a i idx bs) ≡ false
drop_loop-gone zero a i idx k bs d lo up = absurd (omega arith)
drop_loop-gone (suc n) a i idx k bs d lo up =
    let b = arena_to_block a i idx in
    let rest = drop_block b bs in
    elim (Bool-cases (k == idx)) [
      | inl e ↦ elim (Bool-cases (has (arena_to_block a i k) (drop_loop n a i (idx + 1) rest))) [
        | inl t ↦
            let same : arena_to_block a i k ≡ b =
              ap (arena_to_block a i) (let q : k ≡ idx = ground arith in q) in
            let t' =
              ap (λ (x : ℕ). has x rest) (sym same)
              ∙ has-drop_loop n a i (idx + 1) (arena_to_block a i k) rest t in
            let gone = drop_block-gone b bs d in absurd (ground (arith, t', gone))
        | inr t ↦ t
      ]
      | inr e ↦
          drop_loop-gone n a i (idx + 1) k rest (drop_block-Distinct b bs d) (ground arith)
            (omega arith)
    ]

pub count_in-drop_loop :
    (n a i idx b : ℕ) (bs : List ℕ)
    → ((k : ℕ) → idx ≤ k → k < idx + n → (block_to_arena (arena_to_block a i k) == b) ≡ false)
    → count_in b (drop_loop n a i idx bs) ≡ count_in b bs
count_in-drop_loop zero a i idx b bs out = refl
count_in-drop_loop (suc n) a i idx b bs out =
    count_in-drop_loop n a i (idx + 1) b (drop_block (arena_to_block a i idx) bs)
      (λ k lo up. out k (omega arith) (omega arith))
    ∙ count_in-drop_other b (arena_to_block a i idx) bs (out idx (omega arith) (omega arith))
