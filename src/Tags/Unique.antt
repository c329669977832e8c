-- ===== src/Tags/Unique.antt =====
-- The callers' test that a tag of a kind is there exactly once.
use secure_kernel_loader.Base.{
  ℕ, zero, suc, ◌<◌, ◌≡◌, refl, Bool, some, List, [], ◌∷◌, arith, length, find, select, Bool-cases,
  inl, inr, if◌then◌else◌, ◌==◌, sym, ap,
}
use secure_kernel_loader.Base.Memory.{Memory}
use secure_kernel_loader.Tags.{Image, tag_type, next_where, sole_where, only_where}
use secure_kernel_loader.Tags.Chain.{IsChain, or_null, next_where-find}

-- The only element, or NULL.
abbrev pub sole : List ℕ → ℕ
sole [] = 0
sole (x ∷ []) = x
sole (x ∷ y ∷ ys) = 0

module _ (img : Image) (m : Memory) (test : ℕ → Bool) where
  abbrev passing : List ℕ → List ℕ
  passing xs = select (λ x. test (tag_type m x)) xs

  -- A second passing tag is one that the search behind the first finds; addresses are not NULL.
  sole-cons :
      (t : ℕ) (xs : List ℕ) (y : ℕ)
      → IsChain img m t xs
      → sole (y ∷ passing xs) ≡ (if or_null (find (λ x. test (tag_type m x)) xs) == 0 then y else 0)
  sole-cons t [] y c = refl
  sole-cons t (x ∷ xs) y (ne, pos, step, l, c) = elim (Bool-cases (test (m x))) [
    | inl hit ↦ rw hit (ground arith)
    | inr miss ↦ rw miss (sole-cons x xs y c)
  ]

  -- On a chain of tags the pair of calls by which the callers test that a tag is there exactly
  -- once returns the one tag that passes the test, and NULL where there is none or more than one.
  pub only_where-sole :
      (fuel t : ℕ) (xs : List ℕ)
      → length xs < fuel
      → IsChain img m t xs
      → only_where img m test fuel t ≡ some (sole (select (λ x. test (tag_type m x)) xs))
  unfolding only_where
  only_where-sole fuel t [] h c = rw (next_where-find img m test fuel t [] h c)
  only_where-sole fuel t (zero ∷ xs) h (ne, pos, step, l, c) = absurd (omega arith)
  only_where-sole fuel t (suc x ∷ xs) h (ne, pos, step, l, c) =
      elim (Bool-cases (test (m (suc x)))) [
        | inl hit ↦
            rw (first, hit, next_where-find img m test fuel (suc x) xs (omega arith) c, sole_where)
              (ap some (sym (sole-cons (suc x) xs (suc x) c)))
        | inr miss ↦
            rw (first, miss)
              (rw (← next_where-find img m test fuel (suc x) xs (omega arith) c)
                (only_where-sole fuel (suc x) xs (omega arith) c))
      ]
    where
      first :
          next_where img m test fuel t
          ≡ some (or_null (find (λ k. test (tag_type m k)) (suc x ∷ xs)))
      first = next_where-find img m test fuel t (suc x ∷ xs) h (ne, pos, step, l, c)
