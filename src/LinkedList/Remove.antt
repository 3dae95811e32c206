-- ===== src/LinkedList/Remove.antt =====
-- list_remove, list_pop_front and list_pop_back.
use xbay_os.Base.{
  ℕ, ◌≡◌, refl, false, Option, none, some, List, [], ◌∷◌, ◌++◌, ◌==◌, has-append, Distinct,
  Distinct-drop, ne_of_has, arith, update,
}
use mathlib.Core.List.{append-nil}
use xbay_os.Intr.{IntrStat, bracket}
use xbay_os.LinkedList.{Links, head, tail, unlink, remove, pop_front, pop_back}
use xbay_os.LinkedList.Seg
use xbay_os.LinkedList.Seg.{Seg, last, first, has-last, has-first, IsList, IsFresh, SameOutside}

module _ (n p : ℕ → ℕ) (x : ℕ) where
  abbrev next_after : ℕ → ℕ
  next_after = update n (p x) (n x)

  abbrev prev_after : ℕ → ℕ
  prev_after = update p (n x) (p x)

  Seg-unlink :
      (a : ℕ) (ys : List ℕ) (zs : List ℕ) (b : ℕ)
      → Seg n p a ys x
      → Seg n p x zs b
      → Distinct (a ∷ b ∷ (ys ++ x ∷ zs))
      → Seg next_after prev_after a (ys ++ zs) b
  Seg-unlink a [] [] b s t d = ground arith
  Seg-unlink a [] (z ∷ zs) b s t d = (
    ground arith,
    ground arith,
    Seg.frame n p next_after prev_after z zs b t.2 (λ c h. ground (arith, ne_of_has (z ∷ zs) a c h))
        (λ c h. ground (arith, ne_of_has (b ∷ zs) z c h)),
  )
  Seg-unlink a (y ∷ ys) zs b s t d =
      let back = Seg.prev_last n p y ys x s.2 in
      let fore = Seg.next_first n p x zs b t in
      let e = has-append a ys (x ∷ zs) in
      let f = has-append y ys (x ∷ zs) in
      let g = has-append b ys (x ∷ zs) in
      let ne = ne_of_has (y ∷ ys) a (last y ys) (has-last y ys) (ground arith) in
      let ne' = ne_of_has (b ∷ zs) y (first zs b) (has-first b zs) (ground arith) in
      (ground arith, ground arith, Seg-unlink y ys zs b s.2 t (ground arith))

abbrev pub PoppedFront : IntrStat → Links → ℕ → List ℕ → Option ℕ × Links → Type 0
PoppedFront stale m l [] r = r ≡ (none, m)
PoppedFront stale m l (x ∷ xs) (o, m') =
    (o ≡ some x) × IsList m' l xs × IsFresh l xs x × (m'.intr ≡ bracket stale m.intr)

module _ (stale : IntrStat) (m : Links) (l : ℕ) where
  -- list_remove takes its node, wherever it stands, out of the list, and keeps the order of the
  -- others; the interrupt flag is treated as by a critical section.
  pub remove-IsList :
      (xs : List ℕ) (node : ℕ) (ys : List ℕ)
      → IsList m l (xs ++ node ∷ ys)
      → IsList (remove stale node m) l (xs ++ ys)
        × IsFresh l (xs ++ ys) node
        × ((remove stale node m).intr ≡ bracket stale m.intr)
  unfolding remove unlink
  remove-IsList xs node ys is =
      let (s, t) = Seg.split m.next m.prev (head l) xs node ys (tail l) is.chain in
      let (d, out) = Distinct-drop (head l ∷ tail l ∷ xs) node ys is.apart in
      let back = Seg.prev_last m.next m.prev (head l) xs node s in
      let in_front = has-append node xs ys in
      let ne : (node == m.prev node) ≡ false =
        rw back
          (ne_of_has (head l ∷ xs) node (last (head l) xs) (has-last (head l) xs) (ground arith)) in
      (
        record {
          chain =
              rw (ne, update) (Seg-unlink m.next m.prev node (head l) xs ys (tail l) s t is.apart);
          apart = d;
        },
        out,
        refl,
      )

  -- list_pop_front on an empty list returns NULL and changes nothing; otherwise it returns the
  -- first node and leaves the others, in order.
  pop_front-IsList : (xs : List ℕ) → IsList m l xs → PoppedFront stale m l xs (pop_front stale l m)
  unfolding pop_front
  pop_front-IsList [] is = let e : m.next l ≡ tail l = is.chain.0 in rw e (ground arith)
  pop_front-IsList (x ∷ ys) is =
      let e : m.next l ≡ x = is.chain.0 in
      let ne : (x == tail l) ≡ false = ground arith in
      let (rest, out, flag) = remove-IsList [] x ys is in
      (rw (e, ne) refl, rw (e, ne) rest, out, rw (e, ne) flag)

  -- list_pop_back on a list that ends in x returns x and leaves the nodes before it.
  pub pop_back-IsList :
      (xs : List ℕ) (x : ℕ)
      → IsList m l (xs ++ x ∷ [])
      → ((pop_back stale l m).0 ≡ some x)
        × IsList (pop_back stale l m).1 l xs
        × ((pop_back stale l m).1.intr ≡ bracket stale m.intr)
  unfolding pop_back
  pop_back-IsList xs x is =
      let (s, t) = Seg.split m.next m.prev (head l) xs x [] (tail l) is.chain in
      let e : m.prev (tail l) ≡ x = t.1 in
      let a = is.apart in
      let b = has-append l xs (x ∷ []) in
      let ne : (x == l) ≡ false = ground arith in
      let (rest, out, flag) = remove-IsList xs x [] is in
      rw (e, ne) (refl, rw append-nil at rest, flag)

  pub pop_back-nil : IsList m l [] → pop_back stale l m ≡ (none, m)
  unfolding pop_back
  pop_back-nil is = let e : m.prev (tail l) ≡ l = is.chain.1 in rw e (ground arith)
