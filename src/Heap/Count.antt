-- ===== src/Heap/Count.antt =====
-- How many of the free blocks of a list lie in an arena.
use xbay_os.Heap.{block_to_arena}
use xbay_os.Base.{
  ==_refl, Bool-cases, List, [], arith, false, has, if◌then◌else◌, inl, inr, refl, true, ℕ, ◌++◌,
  ◌+◌, ◌<◌, ◌==◌, ◌∷◌, ◌≡◌,
}

abbrev pub count_in : ℕ → List ℕ → ℕ
count_in a [] = 0
count_in a (b ∷ bs) = (if block_to_arena b == a then 1 else 0) + count_in a bs

pub count_in-append :
    (a : ℕ) (bs cs : List ℕ) → count_in a (bs ++ cs) ≡ count_in a bs + count_in a cs
count_in-append a [] cs = omega arith
count_in-append a (b ∷ bs) cs = omega (arith, count_in-append a bs cs)

-- No block of the list lies in the arena.
pub count_in-zero :
    (a : ℕ) (bs : List ℕ)
    → ((b : ℕ) → has b bs ≡ true → (block_to_arena b == a) ≡ false)
    → count_in a bs ≡ 0
count_in-zero a [] h = refl
count_in-zero a (b ∷ bs) h =
    let here = h b (ground (arith, ==_refl b)) in
    let rest = count_in-zero a bs (λ c t. h c (ground (arith, t))) in rw here (omega (arith, rest))

pub has-count_in : (b : ℕ) (bs : List ℕ) → has b bs ≡ true → 0 < count_in (block_to_arena b) bs
has-count_in b [] h = cc
has-count_in b (c ∷ cs) h = elim (Bool-cases (b == c)) [
  | inl e ↦
      let e' : b ≡ c = ground arith in
      let r : (block_to_arena c == block_to_arena b) ≡ true = rw e' (==_refl (block_to_arena c)) in
      rw r (omega arith)
  | inr e ↦ omega (arith, has-count_in b cs (ground (arith, h)))
]
