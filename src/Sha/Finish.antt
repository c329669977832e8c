-- ===== src/Sha/Finish.antt =====
-- What sha1_final and sha256_final append in the buffer is the padding, for every length of the rest.
use mathlib.Core.List.{append_assoc, append-nil}
use mathlib.Core.Path.{ap₂}
use secure_kernel_loader.Base.{
  ℕ, zero, suc, ◌+◌, ◌-◌, ◌*◌, ◌%◌, ◌≤◌, ◌<◌, ◌≡◌, refl, sym, ◌∙◌, ap, List, [], ◌∷◌, ◌++◌, arith,
  ltb, true, false, if◌then◌else◌, length, set, take, drop, replicate, take_prefix, drop_prefix,
  set_prefix, replicate-append, length-append, length-replicate, u64, be64,
}
use secure_kernel_loader.Sha.Stream.{Context, finish, last_block, clear}
use secure_kernel_loader.Sha.Padding.{padding, fold_blocks}

take_whole : (n : ℕ) (xs : List ℕ) → length xs ≡ n → take n xs ≡ xs
take_whole zero [] e = refl
take_whole zero (x ∷ xs) e = absurd (omega arith)
take_whole (suc n) [] e = refl
take_whole (suc n) (x ∷ xs) e = ap (◌∷◌ x) (take_whole n xs (omega arith))

-- A list that is longer than n splits behind its first n entries.
pub split_at :
    (n : ℕ) (xs : List ℕ)
    → n < length xs
    → (y : ℕ) × (ys : List ℕ) × (drop n xs ≡ y ∷ ys) × (length xs ≡ n + suc (length ys))
split_at n [] h = absurd (omega arith)
split_at zero (x ∷ xs) h = (x, xs, refl, omega arith)
split_at (suc n) (x ∷ xs) h =
    let (y, ys, e, l) = split_at n xs (omega arith) in (y, ys, e, omega arith)

module _ (transform : List ℕ → List ℕ → List ℕ) (h : List ℕ) (count : ℕ) (r : ℕ)
    (ends : count % 64 ≡ r) (done ys : List ℕ) (y : ℕ) (whole : length done ≡ r)
    (filled : r + suc (length ys) ≡ 64) where
  abbrev context : Context
  context = record { h = h; count = count; buf = done ++ (y ∷ ys) }

  abbrev marked : List ℕ
  marked = done ++ (0x80 ∷ [])

  marked_lem : set (done ++ (y ∷ ys)) r 0x80 ≡ marked ++ ys
  marked_lem = set_prefix r done ys y 0x80 whole ∙ sym (append_assoc done (0x80 ∷ []) ys)

  marked-length : length marked ≡ r + 1
  marked-length = omega (arith, length-append done (0x80 ∷ []))

  -- Cleared up to hi, the buffer is the marked rest, zeros, and what lies behind hi.
  clear_lem :
      (hi : ℕ)
      → clear (marked ++ ys) (r + 1) hi
        ≡ marked ++ (replicate (hi - (r + 1)) 0 ++ drop hi (marked ++ ys))
  clear_lem hi = rw (take_prefix (r + 1) marked ys marked-length) refl

  finish_lem : finish transform context ≡ (
      if ltb 56 (r + 1)
      then last_block transform
          (transform h (clear (marked ++ ys) (r + 1) 64))
          (clear (marked ++ ys) (r + 1) 64)
          0
          count
      else last_block transform h (marked ++ ys) (r + 1) count)
  unfolding finish
  finish_lem = rw (ends, marked_lem) refl

  abbrev bits : List ℕ
  bits = be64 (u64 (count * 8))

  abbrev zeros : ℕ → List ℕ
  zeros n = replicate n 0

  regroup : (zs bs : List ℕ) → (marked ++ zs) ++ bs ≡ done ++ ((0x80 ∷ zs) ++ bs)
  regroup zs bs = append_assoc marked zs bs ∙ append_assoc done (0x80 ∷ []) (zs ++ bs)

  -- A rest of up to 55 bytes fills one block.
  pub finish_short :
      r < 56 → finish transform context ≡ fold_blocks transform 1 h (done ++ padding count)
  unfolding last_block fold_blocks
  finish_short lt =
      finish_lem
      ∙ (rw one (ap (λ (b : List ℕ). transform h (b ++ bits)) left)
          ∙ ap (transform h) (
              sym (
                take_whole 64 _
                  (length-append (marked ++ zeros (55 - r)) bits ∙ omega (arith, full)))
              ∙ ap (take 64) (regroup (zeros (55 - r)) bits ∙ rw k refl)))
    where
      one : ltb 56 (r + 1) ≡ false
      one = ground arith

      k : (119 - count % 64) % 64 ≡ 55 - r
      k = omega (arith, ends)

      full : length (marked ++ zeros (55 - r)) ≡ 56
      full = omega (
        arith,
        marked-length,
        length-append marked (zeros (55 - r)),
        length-replicate {A = ℕ} (55 - r) 0,
      )

      behind : List ℕ
      behind = drop 56 (marked ++ ys)

      sub56 : 56 - (r + 1) ≡ 55 - r
      sub56 = omega arith

      left : take 56 (clear (marked ++ ys) (r + 1) 56) ≡ marked ++ zeros (55 - r)
      left =
          ap (take 56) (
            clear_lem 56
            ∙ (ap (λ (n : ℕ). marked ++ (zeros n ++ behind)) sub56
                ∙ sym (append_assoc marked (zeros (55 - r)) behind)))
          ∙ take_prefix 56 (marked ++ zeros (55 - r)) behind full

  -- A longer one leaves no room for the length, which goes into a second block.
  pub finish_long :
      56 ≤ r → finish transform context ≡ fold_blocks transform 2 h (done ++ padding count)
  unfolding last_block fold_blocks
  finish_long ge =
      finish_lem
      ∙ (rw (two, cleared) refl ∙ ap₂ (λ (x y : List ℕ). transform (transform h x) y) first second)
    where
      two : ltb 56 (r + 1) ≡ true
      two = ground arith

      k : (119 - count % 64) % 64 ≡ (63 - r) + 56
      k = omega (arith, ends)

      block : List ℕ
      block = marked ++ zeros (63 - r)

      full : length block ≡ 64
      full = omega (
        arith,
        marked-length,
        length-append marked (zeros (63 - r)),
        length-replicate {A = ℕ} (63 - r) 0,
      )

      sub64 : 64 - (r + 1) ≡ 63 - r
      sub64 = omega arith

      nothing : drop 64 (marked ++ ys) ≡ []
      nothing =
          ap (drop 64) (sym (append-nil (marked ++ ys)))
          ∙ drop_prefix 64 (marked ++ ys) []
              (length-append marked ys ∙ omega (arith, marked-length))

      cleared : clear (marked ++ ys) (r + 1) 64 ≡ block
      cleared =
          clear_lem 64
          ∙ (ap₂ (λ (n : ℕ) (l : List ℕ). marked ++ (zeros n ++ l)) sub64 nothing
              ∙ ap (◌++◌ marked) (append-nil (zeros (63 - r))))

      message : done ++ padding count ≡ block ++ (zeros 56 ++ bits)
      message =
          rw
            (
              k,
              replicate-append {A = ℕ} (63 - r) 56 0,
              append_assoc (zeros (63 - r)) (zeros 56) bits,
            )
            (sym (regroup (zeros (63 - r)) (zeros 56 ++ bits)))

      first : block ≡ take 64 (done ++ padding count)
      first = sym (ap (take 64) message ∙ take_prefix 64 block (zeros 56 ++ bits) full)

      second : zeros 56 ++ bits ≡ take 64 (drop 64 (done ++ padding count))
      second =
          sym (ap (take 64) (ap (drop 64) message ∙ drop_prefix 64 block (zeros 56 ++ bits) full))
