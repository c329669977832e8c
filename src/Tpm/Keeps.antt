-- ===== src/Tpm/Keeps.antt =====
-- What the interface promises the commands of tpm1_cmds.c and tpm2_cmds.c, and what those promise
-- the driver's callers: memory outside the buffer stays as it is, and the buffer stands where it stood.
pub mod Drivers
use mathlib.Core.Path.{subst}
use secure_kernel_loader.Base.{ℕ, ◌^◌, ◌<◌, ◌≤◌, ◌≡◌, refl, ◌∙◌, Option, some, bind_some, arith}
use secure_kernel_loader.Base.Memory.{Memory}
use secure_kernel_loader.Tpm.Types.{Family}
use secure_kernel_loader.Tpm.Buff.{TpmBuff, header_size, tpmb_free}
use secure_kernel_loader.Tpm.Buff.Room.{
  Agrees, Agrees-trans, IsHeld, IsUsed, tpmb_free-IsHeld, tpmb_free-Agrees,
}
use secure_kernel_loader.Tpm.Device.{Ops, Received, Tpm, Errno}
use secure_kernel_loader.Tpm.Tpm2.{Build, built, no_room, no_header, finish}

-- recv of struct tpm_hw_ops stays inside the buffer that a command uses.
pub record IsContained {D : Type 0} (ops : Ops D) : Type 0 where
  pub contained :
      (h z : ℕ) (f : Family) (d : D) (m : Memory) (b : TpmBuff) (r : Received D)
      → header_size ≤ z
      → z < 2 ^ 32
      → IsUsed h z b
      → ops.recv f d m b ≡ some r
      → Agrees h z m r.memory × IsHeld h z r.buff

-- How far a command was built, from memory as it was.
abbrev pub Builds : ℕ → ℕ → Memory → Build → Type 0
Builds h z m0 (built m b) = Agrees h z m0 m × IsUsed h z b
Builds h z m0 (no_room m b) = Agrees h z m0 m × IsHeld h z b
Builds h z m0 (no_header m b) = Agrees h z m0 m × IsHeld h z b

-- The TPM after a call: memory, the buffer, and what is never assigned.
pub record Keeps {D : Type 0} (h z : ℕ) (t u : Tpm D) : Type 0 where
  pub agrees : Agrees h z t.memory u.memory
  pub held : IsHeld h z u.buff
  pub family : u.family ≡ t.family
  pub intf : u.intf ≡ t.intf
  pub has_buff : u.has_buff ≡ t.has_buff

module _ {D : Type 0} (ops : Ops D) (h z : ℕ) (wide : z < 2 ^ 32) (t : Tpm D) where
  -- The label free.
  pub finish-Keeps :
      (m : Memory) (b : TpmBuff) (d : D) (e : Errno)
      → Agrees h z t.memory m
      → IsHeld h z b
      → Keeps h z t (finish ops t m b d e).0
  finish-Keeps m b d e a p = record {
    agrees = tpmb_free-Agrees h z wide t.memory m b a p;
    held = tpmb_free-IsHeld h z wide m b p;
    family = refl;
    intf = refl;
    has_buff = refl;
  }

pub Keeps-refl : {D : Type 0} (h z : ℕ) (t : Tpm D) → IsHeld h z t.buff → Keeps h z t t
Keeps-refl h z t p = record {
  agrees = λ x o. refl;
  held = p;
  family = refl;
  intf = refl;
  has_buff = refl;
}

-- Any result of a call that may not return.
abbrev pub KeepsResult : {D : Type 0} → ℕ → ℕ → Tpm D → Option (Tpm D × Errno) → Type 0
KeepsResult {D} h z t o = (r : Tpm D × Errno) → o ≡ some r → Keeps h z t r.0

pub KeepsResult-some :
    {D : Type 0} (h z : ℕ) (t : Tpm D) (r : Tpm D × Errno)
    → Keeps h z t r.0
    → KeepsResult h z t (some r)
KeepsResult-some {D} h z t r k q e =
    let p : r ≡ q = cc in subst (λ (x : Tpm D × Errno). Keeps h z t x.0) p k

pub Keeps-trans :
    {D : Type 0} (h z : ℕ) (t u v : Tpm D) → Keeps h z t u → Keeps h z u v → Keeps h z t v
Keeps-trans h z t u v p q = record {
  agrees = Agrees-trans h z t.memory u.memory v.memory p.agrees q.agrees;
  held = q.held;
  family = q.family ∙ p.family;
  intf = q.intf ∙ p.intf;
  has_buff = q.has_buff ∙ p.has_buff;
}
