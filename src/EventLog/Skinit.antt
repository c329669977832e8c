-- ===== src/EventLog/Skinit.antt =====
-- The event of SKINIT against the hash tags that the bootloader passed.
use secure_kernel_loader.Base.{
  true, false, ℕ, zero, suc, ◌+◌, ◌≡◌, ◌≢◌, refl, ◌⊎◌, inl, inr, Option, none, some, List, [], ◌∷◌,
  arith, find, ◌==◌, ◌/=◌, ◌&&◌, Bool-cases, if◌then◌else◌,
}
use secure_kernel_loader.Base.Memory.{Memory, load, load16}
use secure_kernel_loader.Tags.{Image, next_of_type}
use secure_kernel_loader.Tpm.Types.{Family, tpm12, tpm20}
use secure_kernel_loader.EventLog.{Log}
use secure_kernel_loader.EventLog.Records.{Event20, codes}
use secure_kernel_loader.EventLog.Init.{find_sha1, find_both}
use secure_kernel_loader.EventLog.Kept.{Logs}

module _ (img : Image) (fuel : ℕ) (m : Memory) where
  -- The tag behind which the next search begins.
  abbrev latest : List ℕ → ℕ
  latest [] = img.data_at
  latest (h ∷ hs) = h

  -- Hash tags from the start of the list on, the newest first: each is the next one of type 0x21.
  abbrev pub IsSeen : List ℕ → Type 0
  IsSeen [] = Unit {0}
  IsSeen (h ∷ hs) = (h ≢ 0) × (next_of_type img m fuel (latest hs) 0x21 ≡ some h) × IsSeen hs

  -- All of them: there is no next one.
  abbrev pub IsAll : List ℕ → Type 0
  IsAll hs = IsSeen hs × (next_of_type img m fuel (latest hs) 0x21 ≡ some 0)

  -- The newest with an algorithm: 4 is SHA-1, 0xB SHA-256.
  abbrev pub newest_of : ℕ → List ℕ → Option ℕ
  newest_of algorithm hs = find (λ h. load16 m (h + 2) == algorithm) hs

  -- One of the two is missing.
  abbrev pub IsShort : List ℕ → Type 0
  IsShort hs = (newest_of 4 hs ≡ none) ⊎ (newest_of 0xB hs ≡ none)

  -- The events behind event_log_init and its result. A TPM 1.2 gets the digest of the first SHA-1
  -- tag; a TPM 2.0 the newest two when there is one of each; else there is no event, and 1.
  abbrev pub IsSkinit : Family → List Event20 → ℕ → Type 0
  IsSkinit tpm12 es code =
      ((h : ℕ) × (hs : List ℕ) × IsSeen (h ∷ hs)
        × (newest_of 4 hs ≡ none)
        × (newest_of 4 (h ∷ hs) ≡ some h)
        × (code ≡ 0)
        × (es
            ≡ record { pcr = 17; sha1 = load m (h + 4) 20; sha256 = []; event = codes "SKINIT" }
              ∷ []))
      ⊎ ((hs : List ℕ) × IsAll hs × (newest_of 4 hs ≡ none) × (code ≡ 1) × (es ≡ []))
  IsSkinit tpm20 es code =
      ((h : ℕ) × (hs : List ℕ) × (a : ℕ) × (b : ℕ) × IsSeen (h ∷ hs)
        × IsShort hs
        × (newest_of 4 (h ∷ hs) ≡ some a)
        × (newest_of 0xB (h ∷ hs) ≡ some b)
        × (code ≡ 0)
        × (es
            ≡ record {
              pcr = 17;
              sha1 = load m (a + 4) 20;
              sha256 = load m (b + 4) 32;
              event = codes "SKINIT";
            }
              ∷ []))
      ⊎ ((hs : List ℕ) × IsAll hs × IsShort hs × (code ≡ 1) × (es ≡ []))

  -- What find_sha1 finds.
  abbrev pub IsSha1 : ℕ → Type 0
  IsSha1 d =
      ((h : ℕ) × (hs : List ℕ) × IsSeen (h ∷ hs)
        × (newest_of 4 hs ≡ none)
        × (newest_of 4 (h ∷ hs) ≡ some h)
        × (d ≡ h + 4))
      ⊎ ((hs : List ℕ) × IsAll hs × (newest_of 4 hs ≡ none) × (d ≡ 0))

  pub find_sha1-IsSha1 :
      (rounds : ℕ) (hs : List ℕ) (o : Option ℕ) (d : ℕ)
      → IsSeen hs
      → newest_of 4 hs ≡ none
      → next_of_type img m fuel (latest hs) 0x21 ≡ o
      → find_sha1 img m fuel rounds o ≡ some d
      → IsSha1 d
  unfolding find_sha1
  find_sha1-IsSha1 rounds hs none d seen n e f = absurd cc
  find_sha1-IsSha1 zero hs (some h) d seen n e f = absurd cc
  find_sha1-IsSha1 (suc rounds) hs (some h) d seen n e f = elim (Bool-cases (h == 0)) [
    | inl null ↦ inr (hs, (seen, ground (arith, e, null)), n, ground (arith, f, null))
    | inr tag ↦ elim (Bool-cases (load16 m (h + 2) == 4)) [
      | inl sha1 ↦
          inl (h, hs, (ground (arith, tag), e, seen), n, rw sha1 refl, ground (arith, f, tag, sha1))
      | inr other ↦
          find_sha1-IsSha1 rounds (h ∷ hs) _ d (ground (arith, tag), e, seen) (rw other n) refl
            (ground (arith, f, tag, other))
    ]
  ]

  -- The address of the digest in a tag, or NULL.
  abbrev digest_of : Option ℕ → ℕ
  digest_of none = 0
  digest_of (some h) = h + 4

  -- What find_both finds.
  abbrev pub IsBoth : ℕ × ℕ → Type 0
  IsBoth d =
      ((h : ℕ) × (hs : List ℕ) × (a : ℕ) × (b : ℕ) × IsSeen (h ∷ hs)
        × IsShort hs
        × (newest_of 4 (h ∷ hs) ≡ some a)
        × (newest_of 0xB (h ∷ hs) ≡ some b)
        × (d ≡ (a + 4, b + 4)))
      ⊎ ((hs : List ℕ) × IsAll hs × IsShort hs × (d ≡ (0, 0)))

  -- The pointer behind one round of the loop.
  updated :
      (algorithm h : ℕ) (hs : List ℕ)
      → (if load16 m (h + 2) == algorithm then h + 4 else digest_of (newest_of algorithm hs))
        ≡ digest_of (newest_of algorithm (h ∷ hs))
  updated algorithm h hs = elim (Bool-cases (load16 m (h + 2) == algorithm)) [
    | inl t ↦ rw t refl
    | inr f ↦ rw f refl
  ]

  digest_of-zero : (o : Option ℕ) → digest_of o ≡ 0 → o ≡ none
  digest_of-zero none e = refl
  digest_of-zero (some h) e = absurd (omega (arith, e))

  digest_of-some : (o : Option ℕ) → digest_of o ≢ 0 → (h : ℕ) × (o ≡ some h) × (digest_of o ≡ h + 4)
  digest_of-some none ne = absurd (ne refl)
  digest_of-some (some h) ne = (h, refl, refl)

  both_lem : (a b : ℕ) → ((a /= 0) && (b /= 0)) ≡ true → (a ≢ 0) × (b ≢ 0)
  both_lem a b h = ground arith

  fewer_lem : (a b : ℕ) → ((a /= 0) && (b /= 0)) ≡ false → (a ≡ 0) ⊎ (b ≡ 0)
  fewer_lem a b h = ground arith

  pub find_both-IsBoth :
      (rounds : ℕ) (hs : List ℕ) (o : Option ℕ) (d : ℕ × ℕ)
      → IsSeen hs
      → IsShort hs
      → next_of_type img m fuel (latest hs) 0x21 ≡ o
      → find_both img m fuel rounds (digest_of (newest_of 4 hs)) (digest_of (newest_of 0xB hs)) o
        ≡ some d
      → IsBoth d
  unfolding find_both
  find_both-IsBoth rounds hs none d seen n e f = absurd cc
  find_both-IsBoth zero hs (some h) d seen n e f = absurd cc
  find_both-IsBoth (suc rounds) hs (some h) d seen n e f = elim (Bool-cases (h == 0)) [
    | inl null ↦ inr (hs, (seen, ground (arith, e, null)), n, let f' = (rw null at f) in cc)
    | inr tag ↦
        let f' = (rw (find_both, updated 4 h hs, updated 0xB h hs, tag) at f) in
        let seen' : IsSeen (h ∷ hs) = (ground (arith, tag), e, seen) in
        let x = newest_of 4 (h ∷ hs) in
        let y = newest_of 0xB (h ∷ hs) in
        elim (Bool-cases ((digest_of x /= 0) && (digest_of y /= 0))) [
          | inl both ↦
              let (ne_x, ne_y) = both_lem (digest_of x) (digest_of y) both in
              let (a, ea, da) = digest_of-some x ne_x in
              let (b, eb, db) = digest_of-some y ne_y in
              inl (h, hs, a, b, seen', n, ea, eb, let g = (rw (both, da, db) at f') in cc)
          | inr fewer ↦
              find_both-IsBoth rounds (h ∷ hs) _ d seen'
                (elim (fewer_lem (digest_of x) (digest_of y) fewer) [
                  | inl t ↦ inl (digest_of-zero x t)
                  | inr t ↦ inr (digest_of-zero y t)
                ])
                refl (rw fewer at f')
        ]
  ]

  -- The log holds that event, or none.
  abbrev pub IsStarted : Family → Log → ℕ → Type 0
  IsStarted family s code = (es : List Event20) × IsSkinit family es code × Logs family s es
