-- ===== src/Base/Memory.antt =====
-- string.c over a memory of bytes. A pointer is its address; the loader runs identity mapped below
-- 4 GB, so sums of pointers and sizes do not wrap at 64 bits.
use Prim.Native.Nat.{ℕ, zero, suc, ◌+◌, ◌≤◌, ◌<◌}
use mathlib.Core.Path.{◌≡◌, refl, ap, ap₂, ◌∙◌, subst}
use mathlib.Core.Logic.{◌≢◌, ◌⊎◌, inl, inr}
use mathlib.Core.List.{List, [], ◌∷◌, ◌++◌}
use mathlib.Core.Option.{Option, none, some}
use native.Mathlib.Nat.{add_assoc}
use native.Mathlib.Omega.{arith}
use secure_kernel_loader.Base.Tests.{◌==◌, if◌then◌else◌}
use secure_kernel_loader.Base.Lists.{length, get_or, length-append, replicate}
use secure_kernel_loader.Base.Words.{◌<<<◌, u8, u32, le32, get_le32}

-- The byte at each address.
abbrev pub Memory : Type 0
Memory = ℕ → ℕ

abbrev pub store8 : Memory → ℕ → ℕ → Memory
store8 m a v x = if a == x then v else m x

abbrev pub load16 : Memory → ℕ → ℕ
load16 m a = m a + m (a + 1) <<< 8

abbrev pub load32 : Memory → ℕ → ℕ
load32 m a = m a + m (a + 1) <<< 8 + m (a + 2) <<< 16 + m (a + 3) <<< 24

-- The bytes of an object in memory, and an object written there byte by byte.
unfoldable pub load : Memory → ℕ → ℕ → List ℕ
load m a zero = []
load m a (suc n) = m a ∷ load m (a + 1) n

unfoldable pub store : Memory → ℕ → List ℕ → Memory
store m a [] = m
store m a (b ∷ bs) = store (store8 m a b) (a + 1) bs

-- The three loops of string.c. strlen takes fuel; `none` is a string with no end in reach.
unfoldable pub memcpy : Memory → ℕ → ℕ → ℕ → Memory
memcpy m dst src zero = m
memcpy m dst src (suc count) = memcpy (store8 m dst (m src)) (dst + 1) (src + 1) count

unfoldable pub memset : Memory → ℕ → ℕ → ℕ → Memory
memset m dst c zero = m
memset m dst c (suc n) = memset (store8 m dst (u8 c)) (dst + 1) c n

unfoldable pub strlen : ℕ → Memory → ℕ → ℕ → Option ℕ
strlen zero m s c = none
strlen (suc fuel) m s c =
    let rest = strlen fuel m (s + 1) (c + 1) in if m s == 0 then some c else rest

-- x lies outside the n bytes at a.
abbrev pub Outside : ℕ → ℕ → ℕ → Type 0
Outside a n x = (x < a) ⊎ (a + n ≤ x)

pub store-Outside :
    (m : Memory) (a : ℕ) (bs : List ℕ) (x : ℕ) → Outside a (length bs) x → store m a bs x ≡ m x
unfolding store
store-Outside m a [] x o = refl
store-Outside m a (b ∷ bs) x o =
    store-Outside (store8 m a b) (a + 1) bs x (omega arith) ∙ ground arith

pub load-length : (m : Memory) (a n : ℕ) → length (load m a n) ≡ n
unfolding load
load-length m a zero = refl
load-length m a (suc n) = ap suc (load-length m (a + 1) n)

-- Reading is by address, so memories that agree on a range read alike there.
pub load_agree :
    (m k : Memory) (a n : ℕ) → ((x : ℕ) → a ≤ x → x < a + n → m x ≡ k x) → load m a n ≡ load k a n
unfolding load
load_agree m k a zero h = refl
load_agree m k a (suc n) h =
    ap₂ ◌∷◌ (h a (omega arith) (omega arith))
      (load_agree m k (a + 1) n (λ x p q. h x (omega arith) (omega arith)))

pub load-store : (m : Memory) (a : ℕ) (bs : List ℕ) → load (store m a bs) a (length bs) ≡ bs
unfolding load store
load-store m a [] = refl
load-store m a (b ∷ bs) =
    ap₂ ◌∷◌ (store-Outside (store8 m a b) (a + 1) bs a (inl (omega arith)) ∙ ground arith)
      (load-store (store8 m a b) (a + 1) bs)

pub load-append : (m : Memory) (a n k : ℕ) → load m a (n + k) ≡ load m a n ++ load m (a + n) k
unfolding load
load-append m a zero k = ground arith
load-append m a (suc n) k =
    let e : suc n + k ≡ suc (n + k) = omega arith in
    let d : a + 1 + n ≡ a + suc n = omega arith in
    rw e (ap (◌∷◌ (m a)) (load-append m (a + 1) n k ∙ rw d))

-- A range that a write does not touch reads as before.
pub load-store_outside :
    (m : Memory) (a : ℕ) (bs : List ℕ) (b n : ℕ)
    → (b + n ≤ a) ⊎ (a + length bs ≤ b)
    → load (store m a bs) b n ≡ load m b n
load-store_outside m a bs b n o =
    load_agree (store m a bs) m b n (λ x p q. store-Outside m a bs x (omega arith))

pub memset-Outside : (m : Memory) (a c n x : ℕ) → Outside a n x → memset m a c n x ≡ m x
unfolding memset
memset-Outside m a c zero x o = refl
memset-Outside m a c (suc n) x o =
    memset-Outside (store8 m a (u8 c)) (a + 1) c n x (omega arith) ∙ ground arith

pub memset_inside : (m : Memory) (a c n x : ℕ) → a ≤ x → x < a + n → memset m a c n x ≡ u8 c
unfolding memset
memset_inside m a c zero x p q = absurd (omega arith)
memset_inside m a c (suc n) x p q = elim (split a x p) [
  | inl e ↦ memset-Outside (store8 m a (u8 c)) (a + 1) c n x (inl (omega arith)) ∙ ground arith
  | inr l ↦ memset_inside (store8 m a (u8 c)) (a + 1) c n x l (omega arith)
]
  where
    split : (a x : ℕ) → a ≤ x → (a ≡ x) ⊎ (a + 1 ≤ x)
    split a x p = grind arith

pub memcpy-Outside : (m : Memory) (dst src n x : ℕ) → Outside dst n x → memcpy m dst src n x ≡ m x
unfolding memcpy
memcpy-Outside m dst src zero x o = refl
memcpy-Outside m dst src (suc n) x o =
    memcpy-Outside (store8 m dst (m src)) (dst + 1) (src + 1) n x (omega arith) ∙ ground arith

-- Where source and destination do not overlap, memcpy writes to the destination the bytes that the
-- source held.
pub memcpy-eq-store :
    (m : Memory) (dst src n : ℕ)
    → (src + n ≤ dst) ⊎ (dst + n ≤ src)
    → memcpy m dst src n ≡ store m dst (load m src n)
unfolding memcpy store load
memcpy-eq-store m dst src zero o = refl
memcpy-eq-store m dst src (suc n) o =
    memcpy-eq-store (store8 m dst (m src)) (dst + 1) (src + 1) n (omega arith)
    ∙ ap (λ bs. store (store8 m dst (m src)) (dst + 1) bs)
        (load_agree (store8 m dst (m src)) m (src + 1) n (λ x p q. ground arith))

-- If the byte at n behind the start is zero and none before it is, strlen adds n to the count that
-- it began with, whenever the fuel exceeds n.
pub strlen_lem :
    (fuel : ℕ) (m : Memory) (s c n : ℕ)
    → n < fuel
    → ((i : ℕ) → i < n → m (s + i) ≢ 0)
    → m (s + n) ≡ 0
    → strlen fuel m s c ≡ some (c + n)
unfolding strlen
strlen_lem zero m s c n h nz z = absurd (omega arith)
strlen_lem (suc fuel) m s c zero h nz z =
    let e : s + zero ≡ s = omega arith in
    let d : c + zero ≡ c = omega arith in let z' : m s ≡ 0 = rw (← e) z in rw (z', d)
strlen_lem (suc fuel) m s c (suc n) h nz z =
    let e : s + zero ≡ s = omega arith in
    let ne : m s ≢ 0 = rw e at (nz 0 (omega arith)) in
    let d : s + suc n ≡ s + 1 + n = omega arith in
    let k : c + 1 + n ≡ c + suc n = omega arith in
    ground (arith, ne, k, strlen_lem fuel m (s + 1) (c + 1) n (omega arith) shifted (rw (← d) z))
  where
    shifted : (i : ℕ) → i < n → m (s + 1 + i) ≢ 0
    shifted i p = let d : s + 1 + i ≡ s + suc i = omega arith in rw d (nz (suc i) (omega arith))

pub store-append :
    (m : Memory) (a : ℕ) (bs cs : List ℕ)
    → store m a (bs ++ cs) ≡ store (store m a bs) (a + length bs) cs
unfolding store
store-append m a [] cs = let e : a + 0 ≡ a = omega arith in rw e
store-append m a (b ∷ bs) cs =
    let e : a + 1 + length bs ≡ a + suc (length bs) = omega arith in
    rw (← e) (store-append (store8 m a b) (a + 1) bs cs)

-- Four bytes written as a little endian word are read back as that word.
pub load32-store : (m : Memory) (a x : ℕ) → load32 (store m a (le32 x)) a ≡ u32 x
unfolding store
load32-store m a x = ground arith

pub load32-store_outside :
    (m : Memory) (a : ℕ) (bs : List ℕ) (b : ℕ)
    → (b + 4 ≤ a) ⊎ (a + length bs ≤ b)
    → load32 (store m a bs) b ≡ load32 m b
load32-store_outside m a bs b o = simp (
  store-Outside m a bs b (omega arith),
  store-Outside m a bs (b + 1) (omega arith),
  store-Outside m a bs (b + 2) (omega arith),
  store-Outside m a bs (b + 3) (omega arith),
)

pub store_inside :
    (m : Memory) (a : ℕ) (bs : List ℕ) (i : ℕ)
    → i < length bs
    → store m a bs (a + i) ≡ get_or bs i 0
unfolding store
store_inside m a [] i h = absurd (omega arith)
store_inside m a (b ∷ bs) zero h =
    let e : a + 0 ≡ a = omega arith in
    rw e (store-Outside (store8 m a b) (a + 1) bs a (inl (omega arith)) ∙ ground arith)
store_inside m a (b ∷ bs) (suc i) h =
    let e : a + suc i ≡ a + 1 + i = omega arith in
    rw e (store_inside (store8 m a b) (a + 1) bs i (omega arith))

pub load32-store_inside :
    (m : Memory) (a : ℕ) (bs : List ℕ) (i : ℕ)
    → i + 4 ≤ length bs
    → load32 (store m a bs) (a + i) ≡ get_le32 bs i
load32-store_inside m a bs i h = simp (
  add_assoc,
  store_inside m a bs i (omega arith),
  store_inside m a bs (i + 1) (omega arith),
  store_inside m a bs (i + 2) (omega arith),
  store_inside m a bs (i + 3) (omega arith),
)

-- The bytes lie at the address.
abbrev pub IsAt : Memory → ℕ → List ℕ → Type 0
IsAt m a bs = load m a (length bs) ≡ bs

pub IsAt-other :
    (m : Memory) (a : ℕ) (bs : List ℕ) (c : ℕ) (cs : List ℕ)
    → IsAt m a bs
    → (a + length bs ≤ c) ⊎ (c + length cs ≤ a)
    → IsAt (store m c cs) a bs
IsAt-other m a bs c cs h o = load-store_outside m c cs a (length bs) o ∙ h

pub IsAt-append :
    (m : Memory) (a : ℕ) (bs cs : List ℕ)
    → IsAt m a bs
    → IsAt m (a + length bs) cs
    → IsAt m a (bs ++ cs)
IsAt-append m a bs cs h k = rw (length-append bs cs, load-append, h, k) refl

pub memset-eq-store : (m : Memory) (a c n : ℕ) → memset m a c n ≡ store m a (replicate n (u8 c))
unfolding memset store
memset-eq-store m a c zero = refl
memset-eq-store m a c (suc n) = memset-eq-store (store8 m a (u8 c)) (a + 1) c n

pub IsAt-join :
    (m : Memory) (a c : ℕ) (bs cs : List ℕ)
    → c ≡ a + length bs
    → IsAt m a bs
    → IsAt m c cs
    → IsAt m a (bs ++ cs)
IsAt-join m a c bs cs e h k = IsAt-append m a bs cs h (subst (λ x. IsAt m x cs) e k)
