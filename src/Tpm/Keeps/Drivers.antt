-- ===== src/Tpm/Keeps/Drivers.antt =====
-- tis_recv and crb_recv stay inside the buffer and leave it where it is.
use mathlib.Core.Path.{subst}
use secure_kernel_loader.Base.{
  ℕ, ◌+◌, ◌-◌, ◌^◌, ◌≤◌, ◌<◌, ◌≡◌, refl, Bool, not, Option, some, inl, inr, arith, if_eq, if_elim,
  bind_some, ltb, leb, ◌==◌, ◌/=◌, if◌then◌else◌,
}
use secure_kernel_loader.Base.Memory.{Memory, load32}
use secure_kernel_loader.Tpm.Types.{Family, tpm_max_locality}
use secure_kernel_loader.Tpm.Buff.{TpmBuff, header_size, tpmb_put}
use secure_kernel_loader.Tpm.Buff.Room.{Agrees, IsHeld, IsUsed, tpmb_put-IsUsed}
use secure_kernel_loader.Tpm.Device.{Received}
use secure_kernel_loader.Tpm.Mmio.{Registers, Port, tpm_write8}
use secure_kernel_loader.Tpm.Tis.{tis_data_available, sts, sts_command_ready}
use secure_kernel_loader.Tpm.Tis.Recv.{
  recv_data, recv_last, recv_body, recv_header, convert_header, timeout_d, tis_recv, tis_ops,
  received,
}
use secure_kernel_loader.Tpm.Tis.Bounds.{convert_header_size, tis_recv-Outside}
use secure_kernel_loader.Tpm.Crb.{crb_recv, crb_ops}
use secure_kernel_loader.Tpm.Keeps.{IsContained}

module _ {C : Type 0} (io : Registers C) (fuel : ℕ) (l h z : ℕ) (wide : z < 2 ^ 32) where
  HoldsBuff : Received (Port C) → Type 0
  HoldsBuff r = IsHeld h z r.buff

  failed :
      (c : C) (m : Memory) (b : TpmBuff) (n : ℕ) (r : Received (Port C))
      → IsHeld h z b
      → some (received l c m b n) ≡ some r
      → HoldsBuff r
  unfolding HoldsBuff
  failed c m b n r p e = let q : received l c m b n ≡ r = cc in subst HoldsBuff q p

  recv_last-HoldsBuff :
      (c : C) (m : Memory) (b : TpmBuff) (ptr : ℕ) (r : Received (Port C))
      → IsHeld h z b
      → recv_last io fuel c l m b ptr ≡ some r
      → HoldsBuff r
  unfolding recv_last HoldsBuff
  recv_last-HoldsBuff c m b ptr r p e =
      let (c1, available) = tis_data_available io c l in
      elim (if_eq (not available) (some (received l c1 m b 0)) _ (some r) e) [
        | inl (t, e') ↦ failed c1 m b 0 r p e'
        | inr (f, e') ↦
            let ((c2, m2, n), e1, e2) = bind_some (recv_data io fuel c1 l m ptr 1) _ _ e' in
            let (c3, more) = tis_data_available io c2 l in
            let whole : Received (Port C) =
              received l (tpm_write8 io c3 sts_command_ready (sts l)) m2 b
                (load32 m2 (b.head + 2)) in
            let checked : Received (Port C) = if more then received l c3 m2 b 0 else whole in
            let end : Received (Port C) = if n /= 1 then received l c2 m2 b 0 else checked in
            let q : end ≡ r = cc in
            subst HoldsBuff q (
              if_elim HoldsBuff (n /= 1) (received l c2 m2 b 0) checked (λ t. p)
                (λ f. if_elim HoldsBuff more (received l c3 m2 b 0) whole (λ t. p) (λ f. p)))
      ]

  recv_body-HoldsBuff :
      (c : C) (m : Memory) (b : TpmBuff) (r : Received (Port C))
      → load32 m (b.head + 2) < 2 ^ 32
      → IsUsed h z b
      → recv_body io fuel c l m b ≡ some r
      → HoldsBuff r
  unfolding recv_body
  recv_body-HoldsBuff c m b r small p e =
      elim (if_eq (leb size header_size) (some (received l c m b 0)) _ (some r) e) [
        | inl (t, e') ↦ failed c m b 0 r p.held e'
        | inr (f, e') ↦ elim (if_eq (ptr == 0) (some (received l c m b1 0)) _ (some r) e') [
          | inl (t, e'') ↦ failed c m b1 0 r put.held e''
          | inr (g, e'') ↦
              let ((c1, m1, n), e1, e2) =
                bind_some (recv_data io fuel c l m ptr (expected - 1)) _ _ e'' in
              elim (if_eq (ltb n (expected - 1)) (some (received l c1 m1 b1 0)) _ (some r) e2) [
                | inl (t, e3) ↦ failed c1 m1 b1 0 r put.held e3
                | inr (k, e3) ↦ recv_last-HoldsBuff c1 m1 b1 ptr r put.held e3
              ]
        ]
      ]
    where
      size : ℕ
      size = load32 m (b.head + 2)

      expected : ℕ
      expected = size - header_size

      b1 : TpmBuff
      b1 = (tpmb_put b expected).0

      ptr : ℕ
      ptr = (tpmb_put b expected).1

      put : IsUsed h z b1
      put = tpmb_put-IsUsed h z wide b expected (omega arith) p

  recv_header-HoldsBuff :
      (c : C) (m : Memory) (b : TpmBuff) (r : Received (Port C))
      → IsUsed h z b
      → recv_header io fuel c l m b ≡ some r
      → HoldsBuff r
  unfolding recv_header
  recv_header-HoldsBuff c m b r p e =
      let ((c1, m1, n), e1, e2) = bind_some (recv_data io fuel c l m b.head header_size) _ _ e in
      elim (if_eq (ltb n header_size) (some (received l c1 m1 b 0)) _ (some r) e2) [
        | inl (t, e3) ↦ failed c1 m1 b 0 r p.held e3
        | inr (f, e3) ↦
            recv_body-HoldsBuff c1 (convert_header m1 b.head) b r
              (convert_header_size io fuel l 0 m1 b.head) p e3
      ]

module _ {C : Type 0} (io : Registers C) (fuel h z : ℕ) (wide : z < 2 ^ 32) where
  tis_recv-IsHeld :
      (f : Family) (p : Port C) (m : Memory) (b : TpmBuff) (r : Received (Port C))
      → IsUsed h z b
      → tis_recv io fuel f p m b ≡ some r
      → IsHeld h z r.buff
  unfolding tis_recv HoldsBuff
  tis_recv-IsHeld f p m b r u e =
      elim (if_eq (ltb tpm_max_locality l) (some (received l p.chip m b 0)) _ (some r) e) [
        | inl (t, e') ↦ failed io fuel l h z wide p.chip m b 0 r u.held e'
        | inr (v, e') ↦ elim (if_eq ready first _ (some r) e') [
          | inl (t, e'') ↦ recv_header-HoldsBuff io fuel l h z wide c1 m b r u e''
          | inr (w, e'') ↦ elim (if_eq late second (some (received l c2 m b 0)) (some r) e'') [
            | inl (t, e3) ↦ recv_header-HoldsBuff io fuel l h z wide c2 m b r u e3
            | inr (x, e3) ↦ failed io fuel l h z wide c2 m b 0 r u.held e3
          ]
        ]
      ]
    where
      l : ℕ
      l = p.locality

      c1 : C
      c1 = (tis_data_available io p.chip l).0

      ready : Bool
      ready = (tis_data_available io p.chip l).1

      c2 : C
      c2 = (tis_data_available io (timeout_d io fuel f c1) l).0

      late : Bool
      late = (tis_data_available io (timeout_d io fuel f c1) l).1

      first : Option (Received (Port C))
      first = recv_header io fuel c1 l m b

      second : Option (Received (Port C))
      second = recv_header io fuel c2 l m b

module _ {C : Type 0} (io : Registers C) where
  pub tis_ops-IsContained : (fuel : ℕ) → IsContained (tis_ops io fuel)
  tis_ops-IsContained fuel = record {
    contained = λ h z f d m b r room wide u e.
        (tis_contained h z f d m b r room wide u e, tis_recv-IsHeld io fuel h z wide f d m b r u e);
  }
    where
      tis_contained :
          (h z : ℕ) (f : Family) (d : Port C) (m : Memory) (b : TpmBuff) (r : Received (Port C))
          → header_size ≤ z
          → z < 2 ^ 32
          → IsUsed h z b
          → tis_recv io fuel f d m b ≡ some r
          → Agrees h z m r.memory
      tis_contained h z f d m b r room wide u e x o =
          tis_recv-Outside io fuel f d m b r (omega (arith, u.at_tail, u.held.head))
            (omega (arith, u.held.fits)) (omega (arith, u.held.truesize)) e x
            (omega (arith, o, u.held.head, u.held.truesize))

  pub crb_ops-IsContained : (junk : C → ℕ) → IsContained (crb_ops io junk)
  unfolding crb_recv
  crb_ops-IsContained junk = record {
    contained = λ h z f d m b r room wide u e.
        (let q : record { device = d; memory = m; buff = b; size = 0 } ≡ r = cc in
          subst (λ (r : Received (Port C)). Agrees h z m r.memory × IsHeld h z r.buff) q
            ((λ x o. refl), u.held));
  }
