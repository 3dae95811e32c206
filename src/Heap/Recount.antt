-- ===== src/Heap/Recount.antt =====
-- A change of one list of free blocks, and of the count of the arena that the change concerns.
use xbay_os.Memory.Alloc.{IsKernel}
use xbay_os.Memory.{pf_kernel}
use xbay_os.Heap.Invariant.{
  IsArena, IsBlock, IsBlock-recount, IsHeap, SameKind, kernel_not_user, some_inj, update_other,
  update_same,
}
use xbay_os.Heap.Count.{count_in}
use xbay_os.Heap.{Arena, Heap, cnt_at}
use xbay_os.Base.{
  Bool-cases, Distinct, List, Option, ap, arith, false, has, inl, inr, some, sym, true, update, ℕ,
  ◌<◌, ◌==◌, ◌∙◌, ◌≡◌, ◌≤◌,
}

-- The change: list i is bs, and the header r of the small arena a is r', with the count of bs.
pub record Recount (h h' : Heap) (i a : ℕ) (bs : List ℕ) (r r' : Arena) : Type 0 where
  pub memory : IsKernel h'.mem
  pub same_pages : h'.mem.kern_vaddr ≡ h.mem.kern_vaddr
  pub same_mode : h'.mem.is_process ≡ h.mem.is_process
  pub new_list : h'.kern_blocks ≡ update h.kern_blocks i bs
  pub new_header : h'.arena ≡ update h.arena a (some r')
  pub old_header : h.arena a ≡ some r
  pub same_kind : SameKind r r'
  pub kernel : r.flags ≡ pf_kernel
  pub small : r.large ≡ false
  pub sized : r.index ≡ i
  pub index_in : i < 7
  pub distinct : Distinct bs
  pub all_blocks : (c : ℕ) → has c bs ≡ true → IsBlock h i c
  pub counted : r'.cnt ≡ count_in a bs
  pub bounded : r'.cnt ≤ cnt_at i
  pub others : (b : ℕ) → (b == a) ≡ false → count_in b bs ≡ count_in b (h.kern_blocks i)

module _ (h h' : Heap) (i a : ℕ) (bs : List ℕ) (r r' : Arena) (c : Recount h h' i a bs r r') where
  list_here : h'.kern_blocks i ≡ bs
  list_here = rw (c.new_list) (update_same h.kern_blocks i bs)

  list_there : (j : ℕ) → (j == i) ≡ false → h'.kern_blocks j ≡ h.kern_blocks j
  list_there j ne = rw (c.new_list) (update_other h.kern_blocks i bs j ne)

  header_here : (q : Arena) → h'.arena a ≡ some q → q ≡ r'
  header_here q e =
      some_inj q r'
        (sym e ∙ ap (λ (f : ℕ → Option Arena). f a) c.new_header ∙ update_same h.arena a (some r'))

  header_there : (b : ℕ) (q : Arena) → (b == a) ≡ false → h'.arena b ≡ some q → h.arena b ≡ some q
  header_there b q ne e =
      sym (update_other h.arena a (some r') b ne)
      ∙ sym (ap (λ (f : ℕ → Option Arena). f b) c.new_header)
      ∙ e

  changed : IsHeap h → IsArena h' a r'
  changed v =
      let x = v.arenas a r c.old_header c.kernel in
      let index : r'.index ≡ i = c.same_kind.1 ∙ c.sized in
      record {
        page = x.page;
        at = rw (c.same_pages) x.at;
        in_range = rw (c.same_pages) x.in_range;
        used = rw (c.same_pages) x.used;
        counted = λ s. rw (index, list_here) (c.index_in, c.counted, c.bounded);
      }

  count_kept :
      (b j : ℕ) → (b == a) ≡ false → count_in b (h'.kern_blocks j) ≡ count_in b (h.kern_blocks j)
  count_kept b j ne = elim (Bool-cases (j == i)) [
    | inl e ↦ let e' : j ≡ i = ground arith in rw (e', list_here) (c.others b ne)
    | inr e ↦ ap (count_in b) (list_there j e)
  ]

  unchanged : (b : ℕ) (q : Arena) → (b == a) ≡ false → IsArena h b q → IsArena h' b q
  unchanged b q ne x = record {
    page = x.page;
    at = rw (c.same_pages) x.at;
    in_range = rw (c.same_pages) x.in_range;
    used = rw (c.same_pages) x.used;
    counted = λ s. let k = x.counted s in (k.0, k.1 ∙ sym (count_kept b q.index ne), k.2);
  }

  -- The change keeps the invariant of the heap.
  pub Recount-IsHeap : IsHeap h → IsHeap h'
  Recount-IsHeap v = record {
    memory = c.memory;
    mode = c.same_mode ∙ v.mode;
    distinct = λ j. elim (Bool-cases (j == i)) [
      | inl e ↦ let e' : j ≡ i = ground arith in rw (e', list_here) c.distinct
      | inr e ↦ rw (list_there j e) (v.distinct j)
    ];
    blocks = λ j b lt t. elim (Bool-cases (j == i)) [
      | inl e ↦
          let e' : j ≡ i = ground arith in
          let t' : has b bs ≡ true = ap (has b) (sym list_here ∙ ap h'.kern_blocks (sym e')) ∙ t in
          rw e' (
            IsBlock-recount h h' a i b r r' c.old_header c.new_header c.same_kind
              (c.all_blocks b t'))
      | inr e ↦
          IsBlock-recount h h' a j b r r' c.old_header c.new_header c.same_kind
            (v.blocks j b lt (ap (has b) (sym (list_there j e)) ∙ t))
    ];
    arenas = λ b q t k. elim (Bool-cases (b == a)) [
      | inl e ↦
          let e' : b ≡ a = ground arith in
          let q' = header_here q (ap h'.arena (sym e') ∙ t) in rw (e', q') (changed v)
      | inr e ↦ unchanged b q e (v.arenas b q (header_there b q e t) k)
    ];
    users = λ b q t k. elim (Bool-cases (b == a)) [
      | inl e ↦
          let e' : b ≡ a = ground arith in
          let q' = header_here q (ap h'.arena (sym e') ∙ t) in
          absurd (
            kernel_not_user
              (sym (c.same_kind.0 ∙ c.kernel) ∙ ap (λ (x : Arena). x.flags) (sym q') ∙ k))
      | inr e ↦ rw (c.same_pages) (v.users b q (header_there b q e t) k)
    ];
  }
