-- ===== src/LinkedList/Ends.antt =====
-- list_init, list_push_front and list_push_back.
use xbay_os.Base.{ne_of_has, ℕ, ◌≡◌, refl, List, [], ◌∷◌, ◌++◌, Distinct-append, arith}
use xbay_os.Intr.{IntrStat, bracket}
use xbay_os.LinkedList.{Links, head, tail, init, link_before, push_front, push_back, insert_before}
use xbay_os.LinkedList.Seg.{Seg, last, first, has-last, IsList, IsFresh, SameOutside}
use xbay_os.LinkedList.Seg
use xbay_os.LinkedList.Insert.{Seg-front, Seg-behind}

-- list_init makes an empty list, and writes to the two sentinels only.
pub init-IsList :
    (l : ℕ) (m : Links) → IsList (init l m) l [] × SameOutside (head l ∷ tail l ∷ []) m (init l m)
unfolding init
init-IsList l m = (record { chain = ground arith; apart = ground arith }, λ c h. ground arith)

module _ (stale : IntrStat) (m : Links) (l node : ℕ) where
  -- list_push_back appends the node to the list, writes only to the node, the tail and the last
  -- node, and treats the interrupt flag as a critical section does.
  pub push_back-IsList :
      (xs : List ℕ)
      → IsList m l xs
      → IsFresh l xs node
      → IsList (push_back stale l node m) l (xs ++ node ∷ [])
        × SameOutside (node ∷ tail l ∷ last (head l) xs ∷ []) m (push_back stale l node m)
        × ((push_back stale l node m).intr ≡ bracket stale m.intr)
  unfolding push_back insert_before link_before
  push_back-IsList xs is out =
      let back = Seg.prev_last m.next m.prev (head l) xs (tail l) is.chain in
      (
        record {
          chain =
              Seg-front m.next m.prev (tail l) node (head l) xs is.chain (ground arith)
                (ground arith) (ground arith);
          apart = Distinct-append (head l ∷ tail l ∷ xs) node is.apart out;
        },
        (λ c h. ground arith),
        refl,
      )

  -- list_push_front puts the node before the list, writes only to the node, the head and the first
  -- node, and treats the interrupt flag as a critical section does.
  pub push_front-IsList :
      (xs : List ℕ)
      → IsList m l xs
      → IsFresh l xs node
      → IsList (push_front stale l node m) l (node ∷ xs)
        × SameOutside (node ∷ head l ∷ first xs (tail l) ∷ []) m (push_front stale l node m)
        × ((push_front stale l node m).intr ≡ bracket stale m.intr)
  unfolding push_front insert_before link_before
  push_front-IsList [] is out =
      let e : m.next l ≡ tail l = is.chain.0 in
      let b : m.prev (tail l) ≡ l = is.chain.1 in
      rw e (
        record {
          chain =
              Seg-front m.next m.prev (tail l) node (head l) [] is.chain (ground arith)
                (ground arith) (ground arith);
          apart = ground arith;
        },
        (λ c h. ground arith),
        refl,
      )
  push_front-IsList (x ∷ xs) is out =
      let e : m.next l ≡ x = is.chain.0 in
      let b : m.prev x ≡ l = is.chain.1 in
      let front : Seg m.next m.prev l [] x = (e, b) in
      rw e (
        record {
          chain =
              Seg.join _ _ (head l) (node ∷ []) x xs (tail l)
                (Seg-front m.next m.prev x node (head l) [] front (ground arith) (ground arith)
                  (ground arith))
                (Seg-behind m.next m.prev x node (head l) [] (tail l) xs front is.chain.2
                  (λ c h. ground (arith, ne_of_has (x ∷ xs) l c h, ne_of_has (x ∷ xs) node c h))
                  (λ c h.
                    ground
                      (arith, ne_of_has (tail l ∷ xs) x c h, ne_of_has (tail l ∷ xs) node c h)));
          apart = ground arith;
        },
        (λ c h. ground arith),
        refl,
      )
