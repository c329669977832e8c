-- ===== src/Pci/Locate.antt =====
-- What pci_locate finds in a capability list, and that it does not return from a cyclic one.
use secure_kernel_loader.Base.{
  ℕ, zero, suc, ◌<◌, ◌≡◌, ◌≢◌, refl, Bool, false, none, some, List, [], ◌∷◌, arith, length, find,
  ◌==◌, if◌then◌else◌, bit_and, Bool-cases, inl, inr,
}
use secure_kernel_loader.Tags.Chain.{or_null}
use secure_kernel_loader.Pci.{
  Io, Access, pci_read, pci_cap_id, pci_cap_ptr, invalid_cap, cap_loop, pci_locate,
}

abbrev is_dev : (ℕ → ℕ) → ℕ → Bool
is_dev cap x = pci_cap_id (cap x) == 0x0F

-- The capabilities from ptr on: each has its successor's offset in its second byte, the last has 0.
abbrev pub IsCaps : (ℕ → ℕ) → ℕ → List ℕ → Type 0
IsCaps cap ptr [] = ptr ≡ 0
IsCaps cap ptr (x ∷ xs) = (ptr ≡ x) × (0 < x) × IsCaps cap (pci_cap_ptr (cap x)) xs

module _ {H : Type 0} (io : Io H) (access : Access) (bus devfn : ℕ) (cap : ℕ → ℕ) where
  -- The function's configuration space reads as `cap`, whatever the machine did before.
  abbrev pub Reads : Type 0
  Reads = (h : H) (reg : ℕ) → (pci_read io access h 0 bus devfn reg 4 0).1.0 ≡ cap reg

  cap_loop_lem :
      Reads
      → (fuel ptr : ℕ) (xs : List ℕ) (h : H) → length xs < fuel
      → IsCaps cap ptr xs
      → (k : H) × (cap_loop io fuel access h bus devfn ptr
          ≡ some (k, or_null (find (λ x. pci_cap_id (cap x) == 0x0F) xs)))
  unfolding cap_loop
  cap_loop_lem reads zero ptr xs h l c = absurd (omega arith)
  cap_loop_lem reads (suc fuel) ptr [] h l c = (h, rw c refl)
  cap_loop_lem reads (suc fuel) ptr (x ∷ xs) h l (e, pos, c) =
      let k = (pci_read io access h 0 bus devfn x 4 0).0 in
      elim (Bool-cases (pci_cap_id (cap x) == 0x0F)) [
        | inl hit ↦ (k, rw (e, reads h x, hit) (ground arith))
        | inr miss ↦
            let (j, f) = cap_loop_lem reads fuel (pci_cap_ptr (cap x)) xs k (omega arith) c in
            (j, rw (e, reads h x, miss) (ground (arith, f)))
      ]

  -- On a capability list that ends, pci_locate returns the offset of the first capability with the
  -- identifier 0x0F, and 0 where there is none, where that capability would stand at 0xFF, or
  -- where the pointer to the list is invalid.
  pub pci_locate-find :
      Reads
      → (fuel : ℕ) (xs : List ℕ) (h : H) → length xs < fuel
      → IsCaps cap (bit_and (cap 0x34) 0xFF) xs
      → (k : H) × (pci_locate io fuel access h bus devfn
          ≡ some (
            k,
            if invalid_cap (cap 0x34)
                then 0
                else (let p = or_null (find (λ x. pci_cap_id (cap x) == 0x0F) xs) in
                    if invalid_cap p then 0 else p),
          ))
  unfolding pci_locate
  pci_locate-find reads fuel xs h l c =
      let k = (pci_read io access h 0 bus devfn 0x34 4 0).0 in
      let (j, f) = cap_loop_lem reads fuel (bit_and (cap 0x34) 0xFF) xs k l c in
      elim (Bool-cases (invalid_cap (cap 0x34))) [
        | inl bad ↦ (k, rw (reads h 0x34, bad) refl)
        | inr good ↦ (j, rw (reads h 0x34, good, f) refl)
      ]

  cap_loop_cycle :
      (P : ℕ → Type 0)
      → Reads
      → ((x : ℕ) → P x → (x ≢ 0) × (pci_cap_id (cap x) ≢ 0x0F) × P (pci_cap_ptr (cap x)))
      → (fuel ptr : ℕ) (h : H) → P ptr
      → cap_loop io fuel access h bus devfn ptr ≡ none
  unfolding cap_loop
  cap_loop_cycle P reads step zero ptr h p = refl
  cap_loop_cycle P reads step (suc fuel) ptr h p =
      let (nz, ni, next) = step ptr p in
      let k = (pci_read io access h 0 bus devfn ptr 4 0).0 in
      let rest = cap_loop_cycle P reads step fuel (pci_cap_ptr (cap ptr)) k next in
      rw (reads h ptr, rest) (ground (arith, nz, ni))

  -- A set of offsets that the capability list enters and never leaves, without an end and without
  -- the capability, keeps pci_locate running for ever.
  pub pci_locate_cycle :
      (P : ℕ → Type 0)
      → Reads
      → ((x : ℕ) → P x → (x ≢ 0) × (pci_cap_id (cap x) ≢ 0x0F) × P (pci_cap_ptr (cap x)))
      → invalid_cap (cap 0x34) ≡ false
      → P (bit_and (cap 0x34) 0xFF)
      → (fuel : ℕ) (h : H) → pci_locate io fuel access h bus devfn ≡ none
  unfolding pci_locate
  pci_locate_cycle P reads step good enter fuel h =
      let k = (pci_read io access h 0 bus devfn 0x34 4 0).0 in
      rw (reads h 0x34, good, cap_loop_cycle P reads step fuel (bit_and (cap 0x34) 0xFF) k enter)
        refl
