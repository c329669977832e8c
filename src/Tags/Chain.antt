-- ===== src/Tags/Chain.antt =====
-- The tag list as a list of addresses: what the iterators of include/tags.h compute.
use secure_kernel_loader.Base.{
  ℕ, zero, suc, ◌+◌, ◌<◌, ◌≡◌, ◌≢◌, Bool, Option, none, some, List, [], ◌∷◌, arith, length, find,
}
use secure_kernel_loader.Base.Memory.{Memory}
use secure_kernel_loader.Tags.{Image, tag_type, tag_len, end_of_tags, next_tag, next_where}

-- NULL where nothing is found.
abbrev pub or_null : Option ℕ → ℕ
or_null none = 0
or_null (some t) = t

module _ (img : Image) (m : Memory) where
  -- `xs` are the tags after t: each lies inside the list behind its predecessor, whose length is
  -- not zero, and the last of them (t itself if there is none) is the END tag.
  abbrev pub IsChain : ℕ → List ℕ → Type 0
  IsChain t [] = tag_type m t ≡ 0
  IsChain t (x ∷ xs) =
      (tag_type m t ≢ 0)
      × (0 < tag_len m t)
      × (t + tag_len m t ≡ x)
      × (x < end_of_tags img m)
      × IsChain x xs

  -- Every step goes forward, so a chain is no longer than the list has bytes behind its start.
  pub IsChain-length :
      (t : ℕ) (xs : List ℕ)
      → IsChain t xs
      → t < end_of_tags img m
      → length xs + t < end_of_tags img m
  IsChain-length t [] c b = omega arith
  IsChain-length t (x ∷ xs) (ne, pos, e, l, c) b = omega (arith, IsChain-length x xs c l)

  pub IsChain-next : (t x : ℕ) (xs : List ℕ) → IsChain t (x ∷ xs) → next_tag img m t ≡ x
  unfolding next_tag
  IsChain-next t x xs (_, _, e, l, c) = ground arith

  -- On a chain of tags the iterators return the first tag behind the start that passes the test,
  -- or NULL, within as many rounds as there are tags behind the start, and one.
  pub next_where-find :
      (test : ℕ → Bool) (fuel t : ℕ) (xs : List ℕ)
      → length xs < fuel
      → IsChain t xs
      → next_where img m test fuel t ≡ some (or_null (find (λ x. test (tag_type m x)) xs))
  unfolding next_where
  next_where-find test zero t xs h c = absurd (omega arith)
  next_where-find test (suc fuel) t [] h c = rw c
  next_where-find test (suc fuel) t (x ∷ xs) h (ne, pos, e, l, c) = ground (
    arith,
    IsChain-next t x xs (ne, pos, e, l, c),
    next_where-find test fuel x xs (omega arith) c,
  )
