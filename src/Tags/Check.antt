-- ===== src/Tags/Check.antt =====
-- What the format test of skl_main establishes, and on which lists the iterators go wrong.
use secure_kernel_loader.Base.{
  ℕ, zero, suc, ◌+◌, ◌≤◌, ◌<◌, ◌≡◌, refl, ◌≢◌, Bool, true, false, none, some, List, [], ◌∷◌, arith,
  length, find, Bool-cases, Option-cases, inl, inr, if◌then◌else◌, ◌==◌, ◌↔◌, ◌⊎◌,
}
use mathlib.Core.Path.{subst}
use secure_kernel_loader.Base.Memory.{Memory}
use secure_kernel_loader.Tags.{
  Image, tag_type, tag_len, end_of_tags, next_tag, next_where, check_format, slb_size,
}
use secure_kernel_loader.Tags.Chain.{IsChain, next_where-find}

-- The tag at the end of a list of tags behind t.
abbrev pub last : ℕ → List ℕ → ℕ
last t [] = t
last t (x ∷ xs) = last x xs

-- No tag behind the first is NULL.
abbrev pub NoNull : List ℕ → Type 0
NoNull [] = Unit {0}
NoNull (x ∷ xs) = (0 < x) × NoNull xs

-- Some tag behind the first is NULL.
abbrev pub HasNull : List ℕ → Type 0
HasNull [] = ⊥
HasNull (x ∷ xs) = (x ≡ 0) ⊎ HasNull xs

null_or_not : (xs : List ℕ) → NoNull xs ⊎ HasNull xs
null_or_not [] = ground arith
null_or_not (zero ∷ xs) = inr (inl refl)
null_or_not (suc x ∷ xs) = elim (null_or_not xs) [
  | inl none_null ↦ inl (omega arith, none_null)
  | inr has ↦ inr (inr has)
]

module _ (img : Image) (m : Memory) where
  abbrev is_end : ℕ → Bool
  is_end k = k == 0

  -- The header and size tests of skl_main, and the END tag that has to close the list.
  abbrev pub HasFormat : ℕ → Type 0
  HasFormat e =
      (tag_type m img.data_at ≡ 0x0F)
      × (tag_len m img.data_at ≡ 4)
      × (end_of_tags img m ≤ img.start + slb_size)
      × (e + tag_len m e ≡ end_of_tags img m)

  find-last :
      (t x : ℕ) (xs : List ℕ)
      → IsChain img m t (x ∷ xs)
      → (find (λ k. is_end (tag_type m k)) (x ∷ xs) ≡ some (last x xs)) × (0 < last x xs)
  find-last t x [] (ne, pos, step, l, c) = (rw c, omega arith)
  find-last t x (y ∷ xs) (ne, pos, step, l, c) =
      (ground (arith, c.0, (find-last x y xs c).0), (find-last x y xs c).1)

  -- On a chain of tags the format test accepts exactly the lists that begin with a TAGS_SIZE tag
  -- of length 4, lie below the end of the SLB, and are closed by their END tag to the byte.
  pub check_format_iff :
      (fuel : ℕ) (xs : List ℕ)
      → length xs < fuel
      → IsChain img m img.data_at xs
      → (check_format img m fuel ≡ some true) ↔ HasFormat (last img.data_at xs)
  unfolding check_format
  check_format_iff fuel [] h c = ground arith
  check_format_iff fuel (x ∷ xs) h c = ground (
    arith,
    next_where-find img m is_end fuel img.data_at (x ∷ xs) h c,
    (find-last img.data_at x xs c).0,
    (find-last img.data_at x xs c).1,
  )

  -- The tags that the loop comes to, NULL included, and the proof that it comes to them.
  abbrev pub Walk : ℕ → List ℕ → Type 0
  Walk t [] = tag_type m t ≡ 0
  Walk t (x ∷ xs) = (tag_type m t ≢ 0) × (next_tag img m t ≡ x) × Walk x xs

  walked : ℕ → ℕ → List ℕ
  walked zero t = []
  walked (suc fuel) t =
      let x = next_tag img m t in let rest = walked fuel x in if m x == 0 then x ∷ [] else x ∷ rest

  walked-Walk :
      (fuel t e : ℕ)
      → next_where img m is_end fuel t ≡ some e
      → 0 < e
      → Walk t (walked fuel t) × (last t (walked fuel t) ≡ e) × (e < end_of_tags img m)
  unfolding next_where walked
  walked-Walk zero t e h p = cc
  walked-Walk (suc fuel) t e h p = elim (Bool-cases (m (next_tag img m t) == 0)) [
    | inl hit ↦ rw hit (ground arith)
    | inr miss ↦ rw miss (ground (arith, walked-Walk fuel (next_tag img m t) e))
  ]

  -- A tag of length zero before the END tag would be walked for ever, so a walk has none.
  Walk-progress :
      (t : ℕ) (xs : List ℕ) → Walk t xs → t < end_of_tags img m → tag_type m t ≢ 0 → tag_len m t ≢ 0
  unfolding next_tag
  Walk-progress t [] w b ne z = ne w
  Walk-progress t (x ∷ xs) (ne', e, w) b ne z =
      let same : x ≡ t = ground arith in Walk-progress t xs (subst (λ k. Walk k xs) same w) b ne z

  Walk-IsChain : (t : ℕ) (xs : List ℕ) → Walk t xs → NoNull xs → IsChain img m t xs
  Walk-IsChain t [] w nn = w
  Walk-IsChain t (x ∷ xs) (ne, e, w) (p, nn) =
      let step : (t + tag_len m t ≡ x) × (x < end_of_tags img m) =
        unfold next_tag in ground arith in
      let pos : tag_len m t ≢ 0 =
        Walk-progress t (x ∷ xs) (ne, e, w) (omega (arith, step.0, step.1)) ne in
      (ne, ground arith, step.0, step.1, Walk-IsChain x xs w nn)

  -- If the format test of skl_main accepts, next_of_type has walked from the TAGS_SIZE tag to an
  -- END tag that closes the list to the byte inside the SLB; and the tags form a chain, or the
  -- loop came to NULL on the way.
  pub check_format-Walk :
      (fuel : ℕ)
      → check_format img m fuel ≡ some true
      → (xs : List ℕ) × Walk img.data_at xs
        × HasFormat (last img.data_at xs)
        × (IsChain img m img.data_at xs ⊎ HasNull xs)
  unfolding check_format
  check_format-Walk fuel h = elim (Option-cases (next_where img m is_end fuel img.data_at)) [
    | inl out ↦ absurd (ground arith)
    | inr (e, found) ↦
        let w = walked-Walk fuel img.data_at e found (ground arith) in
        (
          walked fuel img.data_at,
          w.0,
          rw w.1 (ground (arith, found)),
          elim (null_or_not (walked fuel img.data_at)) [
            | inl none_null ↦ inl (Walk-IsChain img.data_at (walked fuel img.data_at) w.0 none_null)
            | inr has ↦ inr has
          ],
        )
  ]

  -- From a tag inside the list of length zero that is neither the END tag nor one that passes the
  -- test, the iterators never return.
  pub next_where_zero_len :
      (test : ℕ → Bool) (fuel t : ℕ)
      → t < end_of_tags img m
      → tag_type m t ≢ 0
      → tag_len m t ≡ 0
      → test (tag_type m t) ≡ false
      → next_where img m test fuel t ≡ none
  unfolding next_where
  next_where_zero_len test zero t b ne z f = refl
  next_where_zero_len test (suc fuel) t b ne z f =
      let same : next_tag img m t ≡ t = unfold next_tag in ground arith in
      ground (arith, same, ne, f, next_where_zero_len test fuel t b ne z f)

  -- From a tag that is not the END tag and runs past the end of the list, the iterators go on at
  -- address 0, and take the byte there for the next tag's type.
  pub next_where_past_end :
      (test : ℕ → Bool) (fuel t : ℕ)
      → tag_type m t ≢ 0
      → end_of_tags img m ≤ t + tag_len m t
      → next_where img m test (suc fuel) t
        ≡ (if test (m 0) then some 0 else next_where img m test fuel 0)
  unfolding next_where
  next_where_past_end test fuel t ne b =
      let null : next_tag img m t ≡ 0 = unfold next_tag in ground arith in ground (arith, null, ne)
