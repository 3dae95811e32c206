-- ===== src/Disk/Poll.antt =====
-- spin_wait returns, whatever the drive answers.
use xbay_os.Disk.{Disk, Io, busy, data_ready, inb, sleep_ms, spin_loop, spin_wait}
use xbay_os.Base.{
  Bool, Bool-cases, List, [], arith, false, inl, inr, ltb, ok, refl, suc, true, zero, ℕ, ◌*◌, ◌+◌,
  ◌-◌, ◌<◌, ◌==◌, ◌∷◌, ◌≡◌, ◌≤◌,
}

module _ (poll : ℕ → ℕ) where
  -- What an answer of spin_wait says of the polls from k up to k'.
  pub record Answer (b : Bool) (k k' : ℕ) : Type 0 where
    pub later : k ≤ k'
    pub positive :
        b ≡ true → (j : ℕ) × (k' ≡ j + 1) × (busy poll j ≡ false) × (data_ready poll j ≡ true)
    pub before : (j : ℕ) → k ≤ j → j + 1 < k' → busy poll j ≡ true

  spin_loop-Answer :
      (fuel : ℕ) (d : Disk) (ms k : ℕ)
      → ms + 10 ≤ 10 * fuel
      → (b : Bool) × (io : List Io) × (k' : ℕ) × (spin_loop poll fuel d ms k ≡ ok (b, io, k'))
        × Answer b k k'
        × (k' ≤ k + fuel - 1)
  unfolding spin_loop
  spin_loop-Answer zero d ms k h = absurd (omega arith)
  spin_loop-Answer (suc fuel) d ms k h = elim (Bool-cases (ltb 0 ms)) [
    | inl more ↦ elim (Bool-cases (busy poll k)) [
      | inl b ↦
          let (good, io, k', run, ans, bound) =
            spin_loop-Answer fuel d (ms - 10) (k + 1) (ground arith) in
          (
            good,
            inb d.start_port 7 ∷ sleep_ms 10 ∷ io,
            k',
            rw (more, b, run) refl,
            record {
              later = omega (arith, ans.later);
              positive = ans.positive;
              before = λ j l u. elim (Bool-cases (j == k)) [
                | inl e ↦ let e' : j ≡ k = ground arith in rw e' b
                | inr e ↦ ans.before j (ground arith) u
              ];
            },
            ground (arith, ans.later),
          )
      | inr b ↦ (
        data_ready poll k,
        inb d.start_port 7 ∷ [],
        k + 1,
        rw (more, b) refl,
        record {
          later = omega arith;
          positive = λ e. (k, refl, b, e);
          before = λ j l u. absurd (omega arith);
        },
        ground arith,
      )
    ]
    | inr stop ↦ (
      false,
      [],
      k,
      rw stop refl,
      record {
        later = omega arith;
        positive = λ e. absurd (ground (arith, e));
        before = λ j l u. absurd (omega arith);
      },
      omega arith,
    )
  ]

  -- spin_wait returns after at most 3000 polls, all but the last of which found the drive busy, and
  -- answers true only if the last one found it ready to transfer data.
  pub spin_wait-Answer :
      (d : Disk) (k : ℕ)
      → (b : Bool) × (io : List Io) × (k' : ℕ) × (spin_wait poll d k ≡ ok (b, io, k'))
        × Answer b k k'
        × (k' ≤ k + 3000)
  unfolding spin_wait
  spin_wait-Answer d k =
      let (b, io, k', run, ans, bound) = spin_loop-Answer 3001 d (30 * 1000) k (omega arith) in
      (b, io, k', run, ans, omega (arith, bound))
