-- ===== src/Sha/Expects.antt =====
-- When the two test programs succeed.
use secure_kernel_loader.Base.{
  ℕ, ◌≡◌, ◌↔◌, refl, sym, ◌∙◌, ap, Bool, true, false, List, [], ◌∷◌, ◌++◌, length, ◌==◌, Bool-cases,
  inl, inr, arith,
}
use secure_kernel_loader.Sha.Sha1.{sha1sum}
use secure_kernel_loader.Sha.Sha256.{sha256sum}
use secure_kernel_loader.Sha.Fips.Constants.{h1_fips, h256_fips}
use secure_kernel_loader.Sha.Fips.Block1.{block1}
use secure_kernel_loader.Sha.Fips.Block256.{block256}
use secure_kernel_loader.Sha.Digest.{fips_digest, sha1sum-fips_digest, sha256sum-fips_digest}
use secure_kernel_loader.Sha.Tables.{
  Test, same_bytes, dump_hash32, dump_hash64, report, run_tests, run_all,
}

same_bytes→eq : (xs ys : List ℕ) → same_bytes xs ys ≡ true → xs ≡ ys
same_bytes→eq [] [] h = refl
same_bytes→eq [] (y ∷ ys) h = absurd cc
same_bytes→eq (x ∷ xs) [] h = absurd cc
same_bytes→eq (x ∷ xs) (y ∷ ys) h = elim (Bool-cases (x == y)) [
  | inl e ↦
      let q : x ≡ y = ground (arith, e) in
      rw (q, same_bytes→eq xs ys (let h' = (rw e at h) in h')) refl
  | inr n ↦ absurd (let h' = (rw n at h) in cc)
]

same_bytes_refl : (xs : List ℕ) → same_bytes xs xs ≡ true
same_bytes_refl [] = refl
same_bytes_refl (x ∷ xs) = let e : (x == x) ≡ true = ground arith in rw (e, same_bytes_refl xs) refl

module _ (digest : List ℕ → List ℕ) where
  -- Every test of the table expects the message's digest.
  abbrev pub Expects : List Test → Type 0
  Expects [] = Unit {0}
  Expects (t ∷ ts) = (t.hash ≡ digest t.msg) × Expects ts

module _ (sum : List ℕ → ℕ → List ℕ) (dump_hash digest : List ℕ → List ℕ)
    (sums : (msg : List ℕ) → sum msg (length msg) ≡ digest msg) where
  -- A failure stays one.
  run_tests_failed :
      (ts : List Test) (printed : List ℕ) → (run_tests sum dump_hash ts true printed).0 ≡ true
  unfolding run_tests
  run_tests_failed [] printed = refl
  run_tests_failed (t ∷ ts) printed =
      elim (Bool-cases (same_bytes (sum t.msg (length t.msg)) t.hash)) [
        | inl e ↦ rw (run_tests, e) (run_tests_failed ts printed)
        | inr e ↦
            rw (run_tests, e)
              (run_tests_failed ts (printed ++ report sum dump_hash t (sum t.msg (length t.msg))))
      ]

  run_tests→Expects :
      (ts : List Test) (printed : List ℕ)
      → (run_tests sum dump_hash ts false printed).0 ≡ false
      → Expects digest ts
  unfolding run_tests
  run_tests→Expects [] printed h = tt
  run_tests→Expects (t ∷ ts) printed h =
      elim (Bool-cases (same_bytes (sum t.msg (length t.msg)) t.hash)) [
        | inl e ↦ (
          sym (same_bytes→eq (sum t.msg (length t.msg)) t.hash e) ∙ sums t.msg,
          run_tests→Expects ts printed (rw (run_tests, e) at h),
        )
        | inr e ↦
            let failed =
              run_tests_failed ts (printed ++ report sum dump_hash t (sum t.msg (length t.msg))) in
            absurd (let h' = (rw (run_tests, e, failed) at h) in cc)
      ]

  Expects→run_tests :
      (ts : List Test) (printed : List ℕ)
      → Expects digest ts
      → run_tests sum dump_hash ts false printed ≡ (false, printed)
  unfolding run_tests
  Expects→run_tests [] printed h = refl
  Expects→run_tests (t ∷ ts) printed (h, hs) =
      let e : same_bytes (sum t.msg (length t.msg)) t.hash ≡ true =
        rw (h, sums t.msg) (same_bytes_refl (digest t.msg)) in
      rw (run_tests, e) (Expects→run_tests ts printed hs)

  run_all_iff : (ts : List Test) → ((run_all sum dump_hash ts).0 ≡ false) ↔ Expects digest ts
  unfolding run_all
  run_all_iff ts = (
    λ h. run_tests→Expects ts [] h,
    λ w. ap (λ (r : Bool × List ℕ). r.0) (Expects→run_tests ts [] w),
  )

-- Whatever their table of tests, the program for SHA-1 returns 0 exactly if each test expects the
-- digest of FIPS 180-4 for its message, and the program for SHA-256 likewise.
pub run_all-Expects :
    (tests : List Test)
    → (((run_all sha1sum (dump_hash32 5 0) tests).0 ≡ false)
        ↔ Expects (fips_digest block1 h1_fips) tests)
      × (((run_all sha256sum (dump_hash64 4 0) tests).0 ≡ false)
          ↔ Expects (fips_digest block256 h256_fips) tests)
run_all-Expects tests = (
  run_all_iff sha1sum (dump_hash32 5 0) (fips_digest block1 h1_fips)
      (λ msg. sha1sum-fips_digest msg (length msg) refl) tests,
  run_all_iff sha256sum (dump_hash64 4 0) (fips_digest block256 h256_fips)
      (λ msg. sha256sum-fips_digest msg (length msg) refl) tests,
)
