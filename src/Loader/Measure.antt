-- ===== src/Loader/Measure.antt =====
-- extend_pcr of main.c, and the release of the TPM that follows the last measurement.
use secure_kernel_loader.Base.{ℕ, Option, none, some, List}
use secure_kernel_loader.Base.Memory.{Memory, load}
use secure_kernel_loader.Sha.Sha1.{sha1sum}
use secure_kernel_loader.Sha.Sha256.{sha256sum}
use secure_kernel_loader.Tpm.Types.{Family, tpm12, tpm20, tpm_alg_sha1, tpm_alg_sha256}
use secure_kernel_loader.Tpm.Device.{Ops}
use secure_kernel_loader.Tpm.Front.{tpm_extend_pcr, tpm_relinquish_locality, free_tpm}
use secure_kernel_loader.EventLog.{Log, log_event_tpm12, log_event_tpm20}
use secure_kernel_loader.Loader.{Loader}

module _ {D H : Type 0} (ops : Ops D) where
  -- A call of event_log.c on the loader's memory.
  abbrev pub with_log : Loader D H → (Log → Log × ℕ) → Loader D H
  with_log s call =
      let l = (call (record s.log { memory = s.tpm.memory })).0 in
      record s { tpm = record s.tpm { memory = l.memory }; log = l }

  -- What follows the extension with the SHA-1 digest. The text is read where the event is logged.
  unfoldable pub extend_rest :
      Family → Loader D H → List ℕ → ℕ → ℕ → ℕ → (Memory → Option (List ℕ)) → Option (Loader D H)
  extend_rest tpm12 s hash bytes_at size pcr text = elim (text s.tpm.memory) [
    | none ↦ none
    | some ev ↦
        some (with_log s (λ l. log_event_tpm12 l (record { pcr = pcr; sha1 = hash; event = ev })))
  ]
  extend_rest tpm20 s hash bytes_at size pcr text =
      let sha256_hash = sha256sum (load s.tpm.memory bytes_at size) size in
      elim (tpm_extend_pcr ops s.tpm pcr tpm_alg_sha256 sha256_hash) [
        | none ↦ none
        | some (t, ret) ↦ elim (text t.memory) [
          | none ↦ none
          | some ev ↦ some (
              with_log (record s { tpm = t })
                (λ l.
                  log_event_tpm20 l
                    (record { pcr = pcr; sha1 = hash; sha256 = sha256_hash; event = ev })))
        ]
      ]

  -- extend_pcr with a text in memory, as a function of that. The results of the TPM's calls are not
  -- looked at, nor are those of the log's.
  unfoldable pub extend_text :
      Loader D H → ℕ → ℕ → ℕ → (Memory → Option (List ℕ)) → Option (Loader D H)
  unfolding extend_rest
  extend_text s bytes_at size pcr text =
      let hash = sha1sum (load s.tpm.memory bytes_at size) size in
      elim (tpm_extend_pcr ops s.tpm pcr tpm_alg_sha1 hash) [
        | none ↦ none
        | some (t, ret) ↦
            extend_rest s.tpm.family (record s { tpm = t }) hash bytes_at size pcr text
      ]

  -- The same with a text that is a constant.
  unfoldable pub extend_pcr : Loader D H → ℕ → ℕ → ℕ → List ℕ → Option (Loader D H)
  unfolding extend_text
  extend_pcr s bytes_at size pcr ev = extend_text s bytes_at size pcr (λ m. some ev)

  -- tpm_relinquish_locality and then free_tpm, which relinquishes once more.
  unfoldable pub release : Loader D H → Option (Loader D H)
  release s = elim (tpm_relinquish_locality ops s.tpm) [
    | none ↦ none
    | some t ↦ elim (free_tpm ops t) [ none ↦ none | some u ↦ some (record s { tpm = u }) ]
  ]
