-- ===== src/LinkedList/Seg.antt =====
-- List segments: what a chain of nodes stands for.
use xbay_os.Base.{ℕ, ◌≡◌, true, false, List, [], ◌∷◌, ◌++◌, has, Distinct, arith, ◌∙◌}
use xbay_os.LinkedList.{Links, head, tail}

-- From `a` the `next` pointers lead through `xs` to `b`, and the `prev` pointers lead back.
abbrev pub Seg : (next prev : ℕ → ℕ) → ℕ → List ℕ → ℕ → Type 0
Seg n p a [] b = (n a ≡ b) × (p b ≡ a)
Seg n p a (x ∷ xs) b = (n a ≡ x) × (p x ≡ a) × Seg n p x xs b

abbrev pub first : List ℕ → ℕ → ℕ
first [] b = b
first (x ∷ xs) b = x

abbrev pub last : ℕ → List ℕ → ℕ
last a [] = a
last a (x ∷ xs) = last x xs

module _ (n p : ℕ → ℕ) where
  pub next_first : (a : ℕ) (xs : List ℕ) (b : ℕ) → Seg n p a xs b → n a ≡ first xs b
  next_first a [] b s = s.0
  next_first a (x ∷ xs) b s = s.0

  pub prev_last : (a : ℕ) (xs : List ℕ) (b : ℕ) → Seg n p a xs b → p b ≡ last a xs
  prev_last a [] b s = s.1
  prev_last a (x ∷ xs) b s = prev_last x xs b s.2

  pub join :
      (a : ℕ) (xs : List ℕ) (y : ℕ) (ys : List ℕ) (b : ℕ)
      → Seg n p a xs y
      → Seg n p y ys b
      → Seg n p a (xs ++ y ∷ ys) b
  join a [] y ys b s t = (s.0, s.1, t)
  join a (x ∷ xs) y ys b s t = (s.0, s.1, join x xs y ys b s.2 t)

  pub split :
      (a : ℕ) (xs : List ℕ) (y : ℕ) (ys : List ℕ) (b : ℕ)
      → Seg n p a (xs ++ y ∷ ys) b
      → Seg n p a xs y × Seg n p y ys b
  split a [] y ys b s = ((s.0, s.1), s.2)
  split a (x ∷ xs) y ys b s = let (l, r) = split x xs y ys b s.2 in ((s.0, s.1, l), r)

  -- A segment survives changes elsewhere.
  pub frame :
      (n' p' : ℕ → ℕ) (a : ℕ) (xs : List ℕ) (b : ℕ)
      → Seg n p a xs b
      → ((c : ℕ) → has c (a ∷ xs) ≡ true → n' c ≡ n c)
      → ((c : ℕ) → has c (b ∷ xs) ≡ true → p' c ≡ p c)
      → Seg n' p' a xs b
  frame n' p' a [] b s hn hp = (hn a (ground arith) ∙ s.0, hp b (ground arith) ∙ s.1)
  frame n' p' a (x ∷ xs) b s hn hp = (
    hn a (ground arith) ∙ s.0,
    hp x (ground arith) ∙ s.1,
    frame n' p' x xs b s.2 (λ c h. hn c (ground arith)) (λ c h. hp c (ground arith)),
  )

pub has-last : (a : ℕ) (xs : List ℕ) → has (last a xs) (a ∷ xs) ≡ true
has-last a [] = ground arith
has-last a (x ∷ xs) = ground (arith, has-last x xs)

pub has-first : (b : ℕ) (xs : List ℕ) → has (first xs b) (b ∷ xs) ≡ true
has-first b [] = ground arith
has-first b (x ∷ xs) = ground arith

-- The list at `l` holds the nodes `xs`, in this order.
pub record IsList (m : Links) (l : ℕ) (xs : List ℕ) : Type 0 where
  pub chain : Seg m.next m.prev (head l) xs (tail l)
  pub apart : Distinct (head l ∷ tail l ∷ xs)

-- `node` is no node of the list at `l`, nor one of its sentinels.
abbrev pub IsFresh : ℕ → List ℕ → ℕ → Type 0
IsFresh l xs node = has node (head l ∷ tail l ∷ xs) ≡ false

-- The two memories agree outside the nodes of `xs`.
abbrev pub SameOutside : List ℕ → Links → Links → Type 0
SameOutside xs m m' = (c : ℕ) → has c xs ≡ false → (m'.next c ≡ m.next c) × (m'.prev c ≡ m.prev c)

-- So a list that shares no node with `xs` is still there.
pub IsList-SameOutside :
    {m m' : Links} (xs : List ℕ) (k : ℕ) (ys : List ℕ)
    → SameOutside xs m m'
    → ((c : ℕ) → has c (head k ∷ tail k ∷ ys) ≡ true → has c xs ≡ false)
    → IsList m k ys
    → IsList m' k ys
IsList-SameOutside {m} {m'} xs k ys same out is = record {
  chain =
      frame m.next m.prev m'.next m'.prev (head k) ys (tail k) is.chain
        (λ c h. (same c (out c (ground arith))).0) (λ c h. (same c (out c (ground arith))).1);
  apart = is.apart;
}
