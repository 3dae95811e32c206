-- ===== src/LinkedList/Insert.antt =====
-- list_insert_before, at a place between two segments.
use xbay_os.Base.{ne_of_has, Distinct, ℕ, ◌≡◌, true, false, List, [], ◌∷◌, ◌++◌, has, arith, update}
use xbay_os.LinkedList.Seg.{last, Seg, frame, prev_last, has-last}

module _ (n p : ℕ → ℕ) (t node : ℕ) where
  -- The memory after the writes.
  abbrev pub next_after : ℕ → ℕ
  next_after = update (update n (p t) node) node t

  abbrev pub prev_after : ℕ → ℕ
  prev_after = update (update p node (p t)) t node

  -- In front of `t` the segment has the node at its end.
  pub Seg-front :
      (a : ℕ) (xs : List ℕ)
      → Seg n p a xs t
      → has t (a ∷ xs) ≡ false
      → has node (t ∷ a ∷ xs) ≡ false
      → Distinct (a ∷ xs)
      → Seg next_after prev_after a (xs ++ node ∷ []) t
  Seg-front a [] s ht hn ha = ground arith
  Seg-front a (x ∷ xs) s ht hn ha =
      let back = prev_last n p x xs t s.2 in
      let ne = ne_of_has (x ∷ xs) a (last x xs) (has-last x xs) ha.0 in
      (ground arith, ground arith, Seg-front x xs s.2 (ground arith) (ground arith) ha.1)

  -- The segment behind `t` stays.
  pub Seg-behind :
      (a : ℕ) (xs : List ℕ) (b : ℕ) (ys : List ℕ)
      → Seg n p a xs t
      → Seg n p t ys b
      → ((c : ℕ) → has c (t ∷ ys) ≡ true → has c (node ∷ a ∷ xs) ≡ false)
      → ((c : ℕ) → has c (b ∷ ys) ≡ true → has c (node ∷ t ∷ []) ≡ false)
      → Seg next_after prev_after t ys b
  Seg-behind a xs b ys s r hn hp =
      let back = prev_last n p a xs t s in
      frame n p next_after prev_after t ys b r
        (λ c h. ground (arith, hn c h, ne_of_has (a ∷ xs) c (last a xs) (has-last a xs)))
        (λ c h. ground (arith, hp c h))
