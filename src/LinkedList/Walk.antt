-- ===== src/LinkedList/Walk.antt =====
-- The walks over a list: list_size, list_exist, list_traversal and list_empty.
use xbay_os.Base.{
  ℕ, zero, suc, ◌+◌, ◌<◌, ◌≡◌, Bool, true, false, Option, none, some, List, [], ◌∷◌, ◌==◌, length,
  has, arith, ok, ap, if◌then◌else◌, ◌∙◌,
}
use xbay_os.LinkedList.{
  Links, head, tail, size_loop, size, traversal_loop, traversal, exist_loop, exist, empty,
}
use xbay_os.LinkedList.Seg.{Seg, IsList}

-- The first node that passes a test.
abbrev pub find : (ℕ → Bool) → List ℕ → Option ℕ
find f [] = none
find f (x ∷ xs) = if f x then some x else find f xs

module _ (m : Links) (b : ℕ) where
  size_loop-Seg :
      (k a r : ℕ) (xs : List ℕ)
      → Seg m.next m.prev a xs b
      → has b xs ≡ false
      → length xs < k
      → size_loop k (m.next a) b r m ≡ ok (r + length xs)
  unfolding size_loop
  size_loop-Seg zero a r xs s out fuel = absurd (omega arith)
  size_loop-Seg (suc k) a r [] s out fuel = rw s.0 (ground arith)
  size_loop-Seg (suc k) a r (x ∷ xs) s out fuel =
      rw s.0 (ground (arith, size_loop-Seg k x (r + 1) xs s.2))

  traversal_loop-Seg :
      (k a : ℕ) (f : ℕ → Bool) (xs : List ℕ)
      → Seg m.next m.prev a xs b
      → has b xs ≡ false
      → length xs < k
      → traversal_loop k f (m.next a) b m ≡ ok (find f xs)
  unfolding traversal_loop
  traversal_loop-Seg zero a f xs s out fuel = absurd (omega arith)
  traversal_loop-Seg (suc k) a f [] s out fuel = rw s.0 (ground arith)
  traversal_loop-Seg (suc k) a f (x ∷ xs) s out fuel =
      rw s.0 (ground (arith, traversal_loop-Seg k x f xs s.2))

  exist_loop-Seg :
      (k a node : ℕ) (xs : List ℕ)
      → Seg m.next m.prev a xs b
      → has b xs ≡ false
      → length xs < k
      → exist_loop k node (m.next a) b m ≡ ok (has node xs)
  unfolding exist_loop
  exist_loop-Seg zero a node xs s out fuel = absurd (omega arith)
  exist_loop-Seg (suc k) a node [] s out fuel = rw s.0 (ground arith)
  exist_loop-Seg (suc k) a node (x ∷ xs) s out fuel =
      rw s.0 (ground (arith, exist_loop-Seg k x node xs s.2))

-- On a list of the nodes xs, with fuel above their number, list_size returns how many they are,
-- list_exist whether a node is among them, list_traversal the first that passes the test or NULL,
-- and list_empty whether there is none.
walks :
    (m : Links) (l fuel node : ℕ) (f : ℕ → Bool) (xs : List ℕ)
    → IsList m l xs
    → length xs < fuel
    → (size fuel l m ≡ ok (length xs))
      × (exist fuel l node m ≡ ok (has node xs))
      × (traversal fuel l f m ≡ ok (find f xs))
      × (empty l m ≡ (length xs == 0))
unfolding size exist traversal empty
walks m l fuel node f xs is enough = (
  size_loop-Seg m (tail l) fuel l 0 xs is.chain is.apart.1.0 enough ∙ ap ok (omega arith),
  exist_loop-Seg m (tail l) fuel l node xs is.chain is.apart.1.0 enough,
  traversal_loop-Seg m (tail l) fuel l f xs is.chain is.apart.1.0 enough,
  at_first xs is,
)
  where
    at_first :
        (xs : List ℕ)
        → IsList m l xs
        → (if m.next (head l) == tail l then true else false) ≡ (length xs == 0)
    at_first [] is = ground arith
    at_first (x ∷ xs) is = ground arith
