-- ===== src/Fs/Requests.antt =====
-- What sectors hold after a list of requests to write: the last request for a sector counts.
use xbay_os.Fs.Build.{Request, moved, send, accepted, from_sector, perform, perform_all}
use xbay_os.Fs.{sector_size}
use xbay_os.Base.{
  ok, true, List, [], arith, refl, ℕ, ◌%◌, ◌*◌, ◌++◌, ◌+◌, ◌-◌, ◌/◌, ◌<◌, ◌∙◌, ◌∷◌, ◌≡◌, ◌≤◌,
}

pub from_sector-small :
    (disk : ℕ → ℕ → ℕ) (lba i : ℕ) → i < 512 → from_sector disk lba i ≡ disk lba i
from_sector-small disk lba i lt =
    let q : lba + i / 512 ≡ lba = omega arith in let r : i % 512 ≡ i = omega arith in rw (q, r) refl

perform-miss :
    (r : Request) (disk : ℕ → ℕ → ℕ) (l o : ℕ) → l < r.lba → perform r disk l o ≡ disk l o
perform-miss r disk l o out = ground arith

perform-hit :
    (r : Request) (disk : ℕ → ℕ → ℕ) (l o : ℕ)
    → r.lba ≤ l
    → l < r.lba + moved r.sectors
    → perform r disk l o ≡ r.bytes ((l - r.lba) * sector_size + o)
perform-hit r disk l o lo hi = ground arith

-- The requests are for later sectors.
abbrev pub AllMiss : ℕ → List Request → Type 0
AllMiss l [] = Unit
AllMiss l (r ∷ rs) = (l < r.lba) × AllMiss l rs

perform_all-miss :
    (rs : List Request) (disk : ℕ → ℕ → ℕ) (l o : ℕ)
    → AllMiss l rs
    → perform_all rs disk l o ≡ disk l o
perform_all-miss [] disk l o h = refl
perform_all-miss (r ∷ rs) disk l o h =
    perform_all-miss rs (perform r disk) l o h.1 ∙ perform-miss r disk l o h.0

-- What a request writes stays if no later one writes to the sector.
pub perform_all-hit :
    (before : List Request) (r : Request) (later : List Request) (disk : ℕ → ℕ → ℕ) (l o : ℕ)
    → r.lba ≤ l
    → l < r.lba + moved r.sectors
    → AllMiss l later
    → perform_all (before ++ r ∷ later) disk l o ≡ r.bytes ((l - r.lba) * sector_size + o)
perform_all-hit [] r later disk l o lo hi miss =
    perform_all-miss later (perform r disk) l o miss ∙ perform-hit r disk l o lo hi
perform_all-hit (q ∷ qs) r later disk l o lo hi miss =
    perform_all-hit qs r later (perform q disk) l o lo hi miss

abbrev pub AllAccepted : List Request → Type 0
AllAccepted [] = Unit
AllAccepted (r ∷ rs) = (accepted r ≡ true) × AllAccepted rs

-- Requests that no assertion stops are all made.
pub send-all : (rs : List Request) → AllAccepted rs → send rs ≡ ok rs
send-all [] h = refl
send-all (r ∷ rs) h = rw (h.0, send-all rs h.1) refl
