-- ===== src/Tpm/Tis/Sizes.antt =====
-- The size that tis_recv returns fits the buffer that it leaves.
use mathlib.Core.Path.{subst}
use secure_kernel_loader.Base.{
  bind_some, Bool-cases, u64, if_eq, if_elim, ℕ, suc, ◌+◌, ◌-◌, ◌^◌, ◌≤◌, ◌<◌, ◌≡◌, refl, ap, ◌∙◌,
  Bool, false, not, Option, some, ◌⊎◌, inl, inr, ◌==◌, ◌/=◌, ltb, leb, if◌then◌else◌, arith,
}
use secure_kernel_loader.Base.Memory.{Memory, load32}
use secure_kernel_loader.Tpm.Types.{Family, tpm_max_locality}
use secure_kernel_loader.Tpm.Buff.{TpmBuff, header_size, tpmb_put}
use secure_kernel_loader.Tpm.Device.{Received}
use secure_kernel_loader.Tpm.Mmio.{Registers, Port, tpm_write8}
use secure_kernel_loader.Tpm.Tis.{tis_data_available, sts, sts_command_ready}
use secure_kernel_loader.Tpm.Tis.Recv.{
  convert_header, recv_data, recv_last, recv_body, recv_header, timeout_d, tis_recv, received,
}
use secure_kernel_loader.Tpm.Tis.Bounds.{
  read_rounds-Outside, recv_last-IsKept, tpmb_put_room, convert_header_size,
}

module _ {C : Type 0} (io : Registers C) (fuel : ℕ) (l : ℕ) where
  -- A failure, or the size in the header with the buffer as it is.
  abbrev IsRead : TpmBuff → Received (Port C) → Type 0
  IsRead b r = (r.size ≡ 0) ⊎ ((r.buff ≡ b) × (r.size ≡ load32 r.memory (b.head + 2)))

  recv_last-IsRead :
      (c : C) (m : Memory) (b : TpmBuff) (ptr : ℕ) (r : Received (Port C))
      → recv_last io fuel c l m b ptr ≡ some r
      → IsRead b r
  unfolding recv_last
  recv_last-IsRead c m b ptr r e =
      let (c1, available) = tis_data_available io c l in
      elim (if_eq (not available) (some (received l c1 m b 0)) _ (some r) e) [
        | inl (t, e') ↦ let q : received l c1 m b 0 ≡ r = cc in subst (IsRead b) q (inl refl)
        | inr (f, e') ↦
            let ((c2, m2, n), e1, e2) = bind_some (recv_data io fuel c1 l m ptr 1) _ _ e' in
            let (c3, more) = tis_data_available io c2 l in
            let whole : Received (Port C) =
              received l (tpm_write8 io c3 sts_command_ready (sts l)) m2 b
                (load32 m2 (b.head + 2)) in
            let checked : Received (Port C) = if more then received l c3 m2 b 0 else whole in
            let end : Received (Port C) = if n /= 1 then received l c2 m2 b 0 else checked in
            let q : end ≡ r = cc in
            subst (IsRead b) q (
              if_elim (IsRead b) (n /= 1) (received l c2 m2 b 0) checked (λ t. inl refl)
                (λ f.
                  if_elim (IsRead b) more (received l c3 m2 b 0) whole (λ t. inl refl)
                    (λ f. inr (refl, refl))))
      ]

  -- A failure, or a size that the buffer has grown to fit, a header being in it before.
  abbrev pub IsSized : TpmBuff → Received (Port C) → Type 0
  IsSized b r =
      (r.size ≡ 0) ⊎ ((r.buff.len + header_size ≡ b.len + r.size) × (r.buff.len ≤ b.truesize))

  -- Where tpmb_put finds room, the buffer grows and stays in its place.
  put_grown :
      (b : TpmBuff) (n : ℕ)
      → ((tpmb_put b n).1 == 0) ≡ false
      → ((tpmb_put b n).0.len ≡ b.len + n) × ((tpmb_put b n).0.head ≡ b.head)
  unfolding tpmb_put
  put_grown b n h = elim (Bool-cases (ltb b.truesize (u64 (b.len + n)))) [
    | inl t ↦ absurd (ground (arith, t))
    | inr f ↦ rw f (refl, refl)
  ]

  -- A word below an address up to which two memories agree.
  load32_below :
      (m k : Memory) (top a : ℕ)
      → a + 4 ≤ top
      → ((x : ℕ) → x < top → m x ≡ k x)
      → load32 m a ≡ load32 k a
  load32_below m k top a h same = simp (
    same a (omega arith),
    same (a + 1) (omega arith),
    same (a + 2) (omega arith),
    same (a + 3) (omega arith),
  )

  recv_body-IsSized :
      (c : C) (m : Memory) (b : TpmBuff) (r : Received (Port C))
      → b.tail ≡ b.head + b.len
      → header_size ≤ b.len
      → b.len < 2 ^ 32
      → load32 m (b.head + 2) < 2 ^ 32
      → recv_body io fuel c l m b ≡ some r
      → IsSized b r
  unfolding recv_body recv_data tpmb_put
  recv_body-IsSized c m b r tail header small size_small e =
      elim (if_eq (leb size header_size) (some (received l c m b 0)) _ (some r) e) [
        | inl (t, e') ↦ let q : received l c m b 0 ≡ r = cc in subst (IsSized b) q (inl refl)
        | inr (f, e') ↦ elim (if_eq (ptr == 0) (some (received l c m b1 0)) _ (some r) e') [
          | inl (t, e'') ↦ let q : received l c m b1 0 ≡ r = cc in subst (IsSized b) q (inl refl)
          | inr (g, e'') ↦
              let ((c1, m1, n), e1, e2) =
                bind_some (recv_data io fuel c l m ptr (expected - 1)) _ _ e'' in
              let (at, room) = tpmb_put_room io fuel l 0 b expected g small (omega arith) in
              elim (if_eq (ltb n (expected - 1)) (some (received l c1 m1 b1 0)) _ (some r) e2) [
                | inl (t, e3) ↦
                    let q : received l c1 m1 b1 0 ≡ r = cc in subst (IsSized b) q (inl refl)
                | inr (k, e3) ↦
                    let (grown, same) = put_grown b expected g in
                    let kept : (x : ℕ) → x < ptr → r.memory x ≡ m x = λ x lt.
                      recv_last-IsKept io fuel l x c1 m1 b1 ptr r (inl lt) e3
                      ∙ read_rounds-Outside io fuel l x (suc (expected - 1)) c m ptr (expected - 1)
                          0 (c1, m1, n) (inl lt) e1 in
                    let size_kept : load32 r.memory (b.head + 2) ≡ size =
                      load32_below r.memory m ptr (b.head + 2) (omega arith) kept in
                    sized (recv_last-IsRead c1 m1 b1 ptr r e3) grown same size_kept room
                      (ground (arith, f))
              ]
        ]
      ]
    where
      size : ℕ
      size = load32 m (b.head + 2)

      expected : ℕ
      expected = size - header_size

      b1 : TpmBuff
      b1 = (tpmb_put b expected).0

      ptr : ℕ
      ptr = (tpmb_put b expected).1

      sized :
          IsRead b1 r
          → b1.len ≡ b.len + expected
          → b1.head ≡ b.head
          → load32 r.memory (b.head + 2) ≡ size
          → b.len + expected ≤ b.truesize
          → header_size < size
          → IsSized b r
      sized (inl z) grown same kept room more = inl z
      sized (inr (q, s)) grown same kept room more =
          let len : r.buff.len ≡ b.len + expected = ap (λ (x : TpmBuff). x.len) q ∙ grown in
          let whole : r.size ≡ size = s ∙ (ap (λ (h : ℕ). load32 r.memory (h + 2)) same ∙ kept) in
          inr (omega arith, omega arith)

  recv_header-IsSized :
      (c : C) (m : Memory) (b : TpmBuff) (r : Received (Port C))
      → b.tail ≡ b.head + b.len
      → header_size ≤ b.len
      → b.len < 2 ^ 32
      → recv_header io fuel c l m b ≡ some r
      → IsSized b r
  unfolding recv_header
  recv_header-IsSized c m b r tail header small e =
      let ((c1, m1, n), e1, e2) = bind_some (recv_data io fuel c l m b.head header_size) _ _ e in
      elim (if_eq (ltb n header_size) (some (received l c1 m1 b 0)) _ (some r) e2) [
        | inl (t, e3) ↦ let q : received l c1 m1 b 0 ≡ r = cc in subst (IsSized b) q (inl refl)
        | inr (f, e3) ↦
            recv_body-IsSized c1 (convert_header m1 b.head) b r tail header small
              (convert_header_size io fuel l 0 m1 b.head) e3
      ]

module _ {C : Type 0} where
  -- For a buffer that has a header in it and its tail behind its length, which is below 2 ^ 32, a
  -- tis_recv that returns gives 0, or the size of a response by whose data the buffer has grown,
  -- to no more than its true size.
  pub tis_recv-IsSized :
      (io : Registers C) (fuel : ℕ) (f : Family) (p : Port C) (m : Memory) (b : TpmBuff)
      (r : Received (Port C))
      → b.tail ≡ b.head + b.len
      → header_size ≤ b.len
      → b.len < 2 ^ 32
      → tis_recv io fuel f p m b ≡ some r
      → (r.size ≡ 0) ⊎ ((r.buff.len + header_size ≡ b.len + r.size) × (r.buff.len ≤ b.truesize))
  unfolding tis_recv
  tis_recv-IsSized io fuel f p m b r tail header small e =
      elim (if_eq (ltb tpm_max_locality l) (some (received l p.chip m b 0)) _ (some r) e) [
        | inl (t, e') ↦ let q : received l p.chip m b 0 ≡ r = cc in subst sized q (inl refl)
        | inr (u, e') ↦ elim (if_eq ready first _ (some r) e') [
          | inl (t, e'') ↦ recv_header-IsSized io fuel l c1 m b r tail header small e''
          | inr (v, e'') ↦ elim (if_eq late second (some (received l c2 m b 0)) (some r) e'') [
            | inl (t, e3) ↦ recv_header-IsSized io fuel l c2 m b r tail header small e3
            | inr (w, e3) ↦ let q : received l c2 m b 0 ≡ r = cc in subst sized q (inl refl)
          ]
        ]
      ]
    where
      sized : Received (Port C) → Type 0
      sized r = IsSized io fuel p.locality b r

      l : ℕ
      l = p.locality

      c1 : C
      c1 = (tis_data_available io p.chip l).0

      ready : Bool
      ready = (tis_data_available io p.chip l).1

      c2 : C
      c2 = (tis_data_available io (timeout_d io fuel f c1) l).0

      late : Bool
      late = (tis_data_available io (timeout_d io fuel f c1) l).1

      first : Option (Received (Port C))
      first = recv_header io fuel c1 l m b

      second : Option (Received (Port C))
      second = recv_header io fuel c2 l m b
