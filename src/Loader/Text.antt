-- ===== src/Loader/Text.antt =====
-- A text that the TPM's calls leave as it is: reading it behind them is reading it before.
use secure_kernel_loader.Base.{
  ℕ, ◌^◌, ◌<◌, ◌≤◌, ◌≡◌, refl, inl, inr, some, Option, Option-cases, List,
}
use secure_kernel_loader.Base.Memory.{Memory, load}
use secure_kernel_loader.Sha.Sha1.{sha1sum}
use secure_kernel_loader.Sha.Sha256.{sha256sum}
use secure_kernel_loader.Tpm.Types.{Family, tpm12, tpm20, tpm_alg_sha1, tpm_alg_sha256}
use secure_kernel_loader.Tpm.Buff.{header_size}
use secure_kernel_loader.Tpm.Buff.Room.{IsHeld}
use secure_kernel_loader.Tpm.Device.{Ops, Tpm}
use secure_kernel_loader.Tpm.Keeps.{IsContained, Keeps, Keeps-trans}
use secure_kernel_loader.Tpm.Front.{tpm_extend_pcr}
use secure_kernel_loader.Tpm.Front.Keeps.{tpm_extend_pcr-Keeps}
use secure_kernel_loader.Loader.{Loader}
use secure_kernel_loader.Loader.Measure.{extend_rest, extend_text, extend_pcr}

module _ {D H : Type 0} (ops : Ops D) (h z : ℕ) (wide : z < 2 ^ 32) (room : header_size ≤ z)
    (c : IsContained ops) where
  -- A text that reads the same wherever the TPM's buffer does not matter is as a constant.
  module _ (s : Loader D H) (held : IsHeld h z s.tpm.buff) (a n pcr : ℕ)
      (text : Memory → Option (List ℕ)) (ev : List ℕ)
      (reads : (t : Tpm D) → Keeps h z s.tpm t → text t.memory ≡ some ev) where
    extend_rest-constant :
        (f : Family) (t : Tpm D) (hash : List ℕ)
        → Keeps h z s.tpm t
        → extend_rest ops f (record s { tpm = t }) hash a n pcr text
          ≡ extend_rest ops f (record s { tpm = t }) hash a n pcr (λ m. some ev)
    unfolding extend_rest
    extend_rest-constant tpm12 t hash kept = rw (extend_rest, reads t kept) refl
    extend_rest-constant tpm20 t hash kept =
        let hash256 = sha256sum (load t.memory a n) n in
        elim (Option-cases (tpm_extend_pcr ops t pcr tpm_alg_sha256 hash256)) [
          | inl e1 ↦ rw (extend_rest, e1) refl
          | inr ((u, ret), e1) ↦
              let more =
                tpm_extend_pcr-Keeps ops h z wide room c t pcr tpm_alg_sha256 hash256 kept.held
                  (u, ret) e1 in
              rw (extend_rest, e1, reads u (Keeps-trans h z s.tpm t u kept more)) refl
        ]

    pub extend_text-constant : extend_text ops s a n pcr text ≡ extend_pcr ops s a n pcr ev
    unfolding extend_pcr extend_text
    extend_text-constant =
        let hash = sha1sum (load s.tpm.memory a n) n in
        elim (Option-cases (tpm_extend_pcr ops s.tpm pcr tpm_alg_sha1 hash)) [
          | inl e1 ↦ rw (extend_text, e1) refl
          | inr ((t, ret), e1) ↦
              rw (extend_text, e1)
                (extend_rest-constant s.tpm.family t hash (
                  tpm_extend_pcr-Keeps ops h z wide room c s.tpm pcr tpm_alg_sha1 hash held (t, ret)
                    e1))
        ]
