-- ===== src/Sha/Fips/Ring.antt =====
-- The array of sixteen words that sha1_blend and sha256_blend turn into a ring: at index i it holds
-- the sixteen newest words of the schedule.
use mathlib.Core.Path.{ap₂}
use secure_kernel_loader.Base.{
  ℕ, zero, suc, ◌+◌, ◌-◌, ◌%◌, ◌^◌, ◌≤◌, ◌<◌, ◌≡◌, ◌∙◌, sym, ap, List, ◌∷◌, arith, get_or, set,
  length, length-set, get_or-set_self, get_or-set_ne, sub32,
}
use secure_kernel_loader.Sha.Fips.{newest, past, word}

-- The words of `before`, the newest first, are those of the ring behind index i.
abbrev pub IsRing : ℕ → List ℕ → List ℕ → Type 0
IsRing i ring before =
    (length ring ≡ 16) × ((k : ℕ) → k < 16 → get_or ring ((i + 15 - k) % 16) 0 ≡ get_or before k 0)

-- The same word at an equal index.
same_word : (words : List ℕ) (i j : ℕ) → i ≡ j → get_or words i 0 ≡ get_or words j 0
same_word words i j e = ap (λ (k : ℕ). get_or words k 0) e

-- What the macros X(i - k) and W(i - k) read.
pub read_back :
    (i k : ℕ) (ring before : List ℕ)
    → IsRing i ring before
    → suc k ≤ 16
    → 16 ≤ i
    → i < 2 ^ 32
    → get_or ring (sub32 i (suc k) % 16) 0 ≡ get_or before k 0
read_back i k ring before (l, r) hk lo hi =
    same_word ring (sub32 i (suc k) % 16) ((i + 15 - k) % 16) (omega arith) ∙ r k (omega arith)

pub read_oldest :
    (i : ℕ) (ring before : List ℕ)
    → IsRing i ring before
    → i < 2 ^ 32
    → get_or ring (sub32 i 0 % 16) 0 ≡ get_or before 15 0
read_oldest i ring before (l, r) hi =
    same_word ring (sub32 i 0 % 16) ((i + 15 - 15) % 16) (omega arith) ∙ r 15 (omega arith)

-- A new word goes to the place of the oldest one.
pub IsRing-set :
    (i v : ℕ) (ring before : List ℕ)
    → IsRing i ring before
    → IsRing (suc i) (set ring (i % 16) v) (v ∷ before)
IsRing-set i v ring before (l, r) = (length-set ring (i % 16) v ∙ l, kept)
  where
    kept :
        (k : ℕ)
        → k < 16
        → get_or (set ring (i % 16) v) ((suc i + 15 - k) % 16) 0 ≡ get_or (v ∷ before) k 0
    kept zero h =
        same_word (set ring (i % 16) v) ((suc i + 15 - 0) % 16) (i % 16) (omega arith)
        ∙ get_or-set_self ring (i % 16) v 0 (omega (arith, l))
    kept (suc k) h =
        get_or-set_ne ring (i % 16) ((suc i + 15 - suc k) % 16) v 0 (λ e. absurd (omega arith))
        ∙ (same_word ring ((suc i + 15 - suc k) % 16) ((i + 15 - k) % 16) (omega arith)
            ∙ r k (omega arith))

-- The newest words of a list, by index.
pub get_or-newest :
    (n k : ℕ) (words : List ℕ) → k < n → get_or (newest n words) k 0 ≡ get_or words (n - suc k) 0
unfolding newest
get_or-newest zero k words h = absurd (omega arith)
get_or-newest (suc n) zero words h = same_word words n (suc n - 1) (omega arith)
get_or-newest (suc n) (suc k) words h =
    get_or-newest n k words (omega arith)
    ∙ same_word words (n - suc k) (suc n - suc (suc k)) (omega arith)

-- Before the first new word the array is the block itself.
pub IsRing-newest : (words : List ℕ) → length words ≡ 16 → IsRing 16 words (newest 16 words)
IsRing-newest words l = (l, start)
  where
    start : (k : ℕ) → k < 16 → get_or words ((16 + 15 - k) % 16) 0 ≡ get_or (newest 16 words) k 0
    start k h =
        same_word words ((16 + 15 - k) % 16) (16 - suc k) (omega arith)
        ∙ sym (get_or-newest 16 k words h)

same_entry :
    (next : List ℕ → ℕ) (words : List ℕ) (n n' k k' : ℕ)
    → n ≡ n'
    → k ≡ k'
    → get_or (past next words n) k 0 ≡ get_or (past next words n') k' 0
same_entry next words n n' k k' e f = ap₂ (λ (m j : ℕ). get_or (past next words m) j 0) e f

-- Words behind the newest ones stay where they are.
past_later :
    (next : List ℕ → ℕ) (words : List ℕ) (more n k : ℕ)
    → get_or (past next words (more + n)) (more + k) 0 ≡ get_or (past next words n) k 0
unfolding past
past_later next words zero n k =
    same_entry next words (zero + n) n (zero + k) k (omega arith) (omega arith)
past_later next words (suc more) n k =
    same_entry next words (suc more + n) (suc (more + n)) (suc more + k) (suc (more + k))
      (omega arith) (omega arith)
    ∙ past_later next words more n k

-- The first sixteen words of a schedule are the block's.
pub word_first :
    (next : List ℕ → ℕ) (words : List ℕ) (n t : ℕ) → t < 16 → word next words n t ≡ get_or words t 0
unfolding past
word_first next words n t h =
    same_entry next words n (n + 0) (15 + n - t) (n + (15 - t)) (omega arith) (omega arith)
    ∙ (past_later next words n 0 (15 - t)
        ∙ (get_or-newest 16 (15 - t) words (omega arith)
            ∙ same_word words (16 - suc (15 - t)) t (omega arith)))

-- A later one is what `next` makes of those before it.
pub word_next :
    (next : List ℕ → ℕ) (words : List ℕ) (n j : ℕ)
    → j < n
    → word next words n (16 + j) ≡ next (past next words j)
unfolding past
word_next next words n j h =
    same_entry next words n ((n - suc j) + suc j) (15 + n - (16 + j)) ((n - suc j) + 0)
      (omega arith) (omega arith)
    ∙ past_later next words (n - suc j) (suc j) 0
