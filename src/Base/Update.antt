-- ===== src/Base/Update.antt =====
-- Reading a map that was updated at one place.
use xbay_os.Base.{
  Bool-cases, arith, false, inl, inr, update, ℕ, ◌==◌, ◌≡◌, ==_refl, ap, sym, ◌∙◌, refl, ◌≢◌,
}

pub update-here {ℓ} : {A : Type ℓ} (f : ℕ → A) (i : ℕ) (v : A) → update f i v i ≡ v
update-here f i v = rw (==_refl i, update) refl

pub update-other {ℓ} :
    {A : Type ℓ} (f : ℕ → A) (i : ℕ) (v : A) (a : ℕ) → a ≢ i → update f i v a ≡ f a
update-other f i v a ne = let e : (a == i) ≡ false = ground (arith, ne) in rw (e, update) refl

-- A second update at the same place brings back what stood there.
pub update-back {ℓ} :
    {A : Type ℓ} (f : ℕ → A) (i : ℕ) (v w : A)
    → f i ≡ w
    → (a : ℕ) → update (update f i v) i w a ≡ f a
update-back f i v w e a = elim (Bool-cases (a == i)) [
  | inl h ↦ let g : a ≡ i = ground (arith, h) in rw (h, update) (sym (ap f g ∙ e))
  | inr h ↦ rw (h, update, h) refl
]
