-- ===== src/Tpm/Enable/Holds.antt =====
-- What enable_tpm has done where it does not return NULL.
use mathlib.Core.Path.{subst}
use secure_kernel_loader.Base.{
  if_elim, if_eq, ◌+◌, ℕ, ◌≡◌, refl, ap, sym, ◌∙◌, Bool, false, ◌⊎◌, inl, inr, ◌==◌, ◌/=◌, ◌||◌,
  if◌then◌else◌, arith, bit_and,
}
use secure_kernel_loader.Tpm.Types.{
  Family, tpm12, tpm20, Interface, tpm_tis, tpm_crb, tpm_no_locality,
}
use secure_kernel_loader.Tpm.Device.{Ops, Tpm}
use secure_kernel_loader.Tpm.Mmio.{Registers, Port, tpm_read8, tpm_read32}
use secure_kernel_loader.Tpm.Tis.{tis_request_locality}
use secure_kernel_loader.Tpm.Tis.Recv.{tis_ops, tis_init}
use secure_kernel_loader.Tpm.Crb.{
  crb_ops, crb_init, swapped_vid, register, tpm_crb_intf_id, crb_request_locality, claim_locality,
  request, is_idle, go_idle, cmd_ready, loc_assigned, active_locality,
}
use secure_kernel_loader.Tpm.Enable.{
  no_tpm, enabled, initialised, init_interface, find_interface_and_family, enable_tpm,
  interface_type, interface_version,
}

module _ {C : Type 0} (io : Registers C) (junk : C → ℕ) (fuel : ℕ) where
  -- Locality 0 is held, and the vendor is not the value that a register without a TPM reads as.
  abbrev IsHeld : Port C → ℕ → Type 0
  IsHeld p vendor = (p.locality ≡ 0) × ((bit_and vendor 0xFFFF == 0xFFFF) ≡ false)

  -- The result of an initialisation that succeeded.
  abbrev IsInit : Port C × ℕ × ℕ → Type 0
  IsInit r = (r.2 ≡ 0) ⊎ IsHeld r.0 r.1

  tis_init-IsInit : (p : Port C) (vendor : ℕ) → IsInit (tis_init io p vendor)
  unfolding tis_init tis_request_locality
  tis_init-IsInit p vendor =
      let (p1, l) = tis_request_locality io (record p { locality = tpm_no_locality }) 0 in
      let (c, v) = tpm_read32 io p1.chip 0x0F00 in
      if_elim IsInit (l /= 0) (p1, vendor, 0) _ (λ t. inl refl)
        (λ f.
          if_elim IsInit (bit_and v 0xFFFF == 0xFFFF) (record p1 { chip = c }, v, 0) _
            (λ t. inl refl) (λ g. inr (ground arith, g)))

  -- A granted locality is the one held, and else it is none.
  abbrev IsGranted : ℕ → Port C × ℕ → Type 0
  IsGranted l r = (r.0.locality ≡ r.1) × ((r.1 ≡ l) ⊎ (r.1 ≡ tpm_no_locality))

  claim_locality-IsGranted : (c : C) (l : ℕ) → IsGranted l (claim_locality io junk c l)
  unfolding claim_locality
  claim_locality-IsGranted c l = (
    refl,
    if_elim (λ (n : ℕ). (n ≡ l) ⊎ (n ≡ tpm_no_locality)) _ tpm_no_locality l (λ t. inr refl)
        (λ f. inl refl),
  )

  pub crb_request_locality-IsGranted :
      (p : Port C) (l : ℕ) → IsGranted l (crb_request_locality io junk p l)
  unfolding crb_request_locality
  crb_request_locality-IsGranted p l =
      let (c, val) = tpm_read8 io p.chip 0 in
      if_elim (IsGranted l) (loc_assigned val == 1) _ _
        (λ t.
          if_elim (IsGranted l) (active_locality val == l) (record { locality = l; chip = c }, l) _
            (λ u. (refl, inl refl)) (λ g. claim_locality-IsGranted _ l))
        (λ f. claim_locality-IsGranted c l)

  go_idle-locality : (p : Port C) → (go_idle io junk p).locality ≡ p.locality
  unfolding go_idle is_idle request
  go_idle-locality p =
      if_elim (λ (q : Port C). q.locality ≡ p.locality) _ _ _ (λ t. refl) (λ f. refl)

  cmd_ready-locality : (p : Port C) → (cmd_ready io junk p).0.locality ≡ p.locality
  unfolding cmd_ready is_idle request
  cmd_ready-locality p =
      if_elim (λ (q : Port C × Bool). q.0.locality ≡ p.locality) _ _ _ (λ t. refl) (λ f. refl)

  crb_init-IsInit : (p : Port C) (vendor : ℕ) → IsInit (crb_init io junk p vendor)
  unfolding crb_init
  crb_init-IsInit p vendor =
      let (p1, l) = crb_request_locality io junk p 0 in
      let (same, given) = crb_request_locality-IsGranted p 0 in
      if_elim IsInit (l == tpm_no_locality) (p1, vendor, 0) _ (λ t. inl refl)
        (λ f.
          let (c, id) = tpm_read32 io p1.chip (register 0 (tpm_crb_intf_id + 4)) in
          let p2 : Port C = record p1 { chip = c } in
          let v : ℕ = swapped_vid id in
          if_elim IsInit (bit_and v 0xFFFF == 0xFFFF) (p2, v, 0)
            ((cmd_ready io junk (go_idle io junk p2)).0, v, 1) (λ t. inl refl)
            (λ g. inr (
              cmd_ready-locality (go_idle io junk p2)
                  ∙ (go_idle-locality p2 ∙ (same ∙ at_zero l given f)),
              g,
            )))
    where
      at_zero : (l : ℕ) → (l ≡ 0) ⊎ (l ≡ tpm_no_locality) → (l == tpm_no_locality) ≡ false → l ≡ 0
      at_zero l (inl e) f = e
      at_zero l (inr e) f = absurd (ground arith)

  -- What holds of the struct tpm that enable_tpm returns, with its operations and its vendor.
  pub record IsEnabled (t' t : Tpm (Port C)) (ops : Ops (Port C)) (vendor : ℕ) : Type 0 where
    pub held : t'.device.locality ≡ 0
    pub present : (bit_and vendor 0xFFFF == 0xFFFF) ≡ false
    pub kept : (t'.memory ≡ t.memory) × (t'.has_buff ≡ t.has_buff)
    pub driven :
        ((t'.intf ≡ tpm_tis) × (ops ≡ tis_ops io fuel))
        ⊎ ((t'.intf ≡ tpm_crb) × (t'.family ≡ tpm20) × (ops ≡ crb_ops io junk))

  -- The ways through initialised.
  initialised_lem :
      (ops ops' : Ops (Port C)) (t t' : Tpm (Port C)) (r : Port C × ℕ × ℕ) (vendor : ℕ)
      → IsInit r
      → initialised io junk fuel ops t r ≡ enabled ops' t' vendor
      → (ops ≡ ops') × (record t { device = r.0 } ≡ t') × IsHeld r.0 vendor
  unfolding initialised
  initialised_lem ops ops' t t' (p, v, done) vendor i e =
      elim (if_eq (done == 0) (no_tpm p) (enabled ops (record t { device = p }) v) _ e) [
        | inl (z, e') ↦ absurd cc
        | inr (nz, e') ↦ let ev : v ≡ vendor = cc in (cc, cc, subst (IsHeld p) ev (held i nz))
      ]
    where
      held : (done ≡ 0) ⊎ IsHeld p v → (done == 0) ≡ false → IsHeld p v
      held (inl z) nz = absurd (ground arith)
      held (inr h) nz = h

  init_interface-IsEnabled :
      (intf : Interface) (ops : Ops (Port C)) (t t' : Tpm (Port C)) (vendor : ℕ)
      → t.intf ≡ intf
      → (intf ≡ tpm_tis) ⊎ (t.family ≡ tpm20)
      → init_interface io junk fuel intf t ≡ enabled ops t' vendor
      → IsEnabled t' t ops vendor
  unfolding init_interface
  init_interface-IsEnabled tpm_tis ops t t' vendor i j e =
      let (o, same, q) =
        initialised_lem (tis_ops io fuel) ops t t' (tis_init io t.device 0) vendor
          (tis_init-IsInit t.device 0) e in
      record {
        held = ap (λ (u : Tpm (Port C)). u.device.locality) (sym same) ∙ q.0;
        present = q.1;
        kept = (
          ap (λ (u : Tpm (Port C)). u.memory) (sym same),
          ap (λ (u : Tpm (Port C)). u.has_buff) (sym same),
        );
        driven = inl (ap (λ (u : Tpm (Port C)). u.intf) (sym same) ∙ i, sym o);
      }
  init_interface-IsEnabled tpm_crb ops t t' vendor i j e =
      let (o, same, q) =
        initialised_lem (crb_ops io junk) ops t t' (crb_init io junk t.device 0) vendor
          (crb_init-IsInit t.device 0) e in
      record {
        held = ap (λ (u : Tpm (Port C)). u.device.locality) (sym same) ∙ q.0;
        present = q.1;
        kept = (
          ap (λ (u : Tpm (Port C)). u.memory) (sym same),
          ap (λ (u : Tpm (Port C)). u.has_buff) (sym same),
        );
        driven = inr (
          ap (λ (u : Tpm (Port C)). u.intf) (sym same) ∙ i,
          ap (λ (u : Tpm (Port C)). u.family) (sym same) ∙ family j,
          sym o,
        );
      }
    where
      family : (tpm_crb ≡ tpm_tis) ⊎ (t.family ≡ tpm20) → t.family ≡ tpm20
      family (inl e) = absurd cc
      family (inr e) = e

  -- The CRB interface is found for TPM 2.0 only.
  IsFound : C × Family × Interface → Type 0
  IsFound r = (r.2 ≡ tpm_tis) ⊎ (r.1 ≡ tpm20)

  find_interface_and_family-IsFound : (c : C) → IsFound (find_interface_and_family io junk fuel c)
  unfolding find_interface_and_family IsFound
  find_interface_and_family-IsFound c =
      let (c1, cap) = tpm_read32 io c 0x14 in
      let (c2, id) = tpm_read32 io c1 0x30 in
      let v2 : C × Family × Interface =
        if interface_type id == 1 then (c2, tpm20, tpm_crb) else (c2, tpm20, tpm_tis) in
      if_elim IsFound ((interface_version cap == 0) || (interface_version cap == 2))
        (c1, tpm12, tpm_tis) v2 (λ t. inl refl)
        (λ f.
          if_elim IsFound (interface_type id == 1) (c2, tpm20, tpm_crb) (c2, tpm20, tpm_tis)
            (λ t. inr refl) (λ f. inl refl))

  -- Where enable_tpm returns a TPM, it holds locality 0, the low 16 bits of its vendor are not all
  -- ones, memory and the buffer's pointer are as before, and its operations are those of tis.c for
  -- the TIS interface, or those of crb.c for the CRB interface of a TPM 2.0.
  pub enable_tpm-IsEnabled :
      (ops : Ops (Port C)) (t t' : Tpm (Port C)) (vendor : ℕ)
      → enable_tpm io junk fuel t ≡ enabled ops t' vendor
      → IsEnabled t' t ops vendor
  unfolding enable_tpm IsFound
  enable_tpm-IsEnabled ops t t' vendor e =
      let (c, family, intf) = find_interface_and_family io junk fuel t.device.chip in
      let q =
        init_interface-IsEnabled intf ops
          (record t { family = family; intf = intf; device = record t.device { chip = c } }) t'
          vendor refl (find_interface_and_family-IsFound t.device.chip) e in
      record { held = q.held; present = q.present; kept = q.kept; driven = q.driven }
