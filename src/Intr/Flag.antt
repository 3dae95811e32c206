-- ===== src/Intr/Flag.antt =====
-- Interrupts across a critical section.
use xbay_os.Base.{◌≡◌, refl, ◌⊎◌, ◌↔◌, inl, inr, arith}
use xbay_os.Intr.{IntrStat, intr_off, intr_on, set_status, bracket}

-- INTERRUPT_DISABLE followed by INTERRUPT_RESTORE brings the interrupt flag back exactly when it
-- was off before or the uninitialised variable of intr_set_status does not hold INTR_ON.
bracket_iff :
    (stale now : IntrStat) → (bracket stale now ≡ now) ↔ ((now ≡ intr_off) ⊎ (stale ≡ intr_off))
unfolding set_status
bracket_iff intr_off intr_off = (λ h. inl refl, λ h. refl)
bracket_iff intr_off intr_on = (λ h. inr refl, λ h. refl)
bracket_iff intr_on intr_off = (λ h. inl refl, λ h. refl)
bracket_iff intr_on intr_on = (λ h. cc, λ h. ground arith)

-- intr_set_status(INTR_OFF) turns interrupts off, when they are on, only if the uninitialised
-- variable holds INTR_ON; with INTR_OFF in it they stay on.
pub set_status_off :
    (stale : IntrStat) → ((set_status stale intr_off intr_on).1 ≡ intr_off) ↔ (stale ≡ intr_on)
unfolding set_status
set_status_off intr_off = (λ h. cc, λ h. cc)
set_status_off intr_on = (λ h. refl, λ h. refl)
