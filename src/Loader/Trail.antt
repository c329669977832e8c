-- ===== src/Loader/Trail.antt =====
-- The log at the end of the path to a Linux kernel: what was measured, in its order.
use mathlib.Core.Path.{subst}
use secure_kernel_loader.Base.{
  ℕ, ◌+◌, ◌^◌, ◌≤◌, ◌<◌, ◌≡◌, refl, ◌∙◌, ◌⊎◌, inl, inr, none, some, Option-cases, if_eq, List, [],
  ◌∷◌, ◌++◌, length, arith,
}
use secure_kernel_loader.Tpm.Buff.{header_size, free_tpmbuff}
use secure_kernel_loader.Tpm.Device.{Ops, Tpm}
use secure_kernel_loader.Tpm.Front.{tpm_relinquish_locality}
use secure_kernel_loader.Tpm.Keeps.{IsContained}
use secure_kernel_loader.EventLog.{Log}
use secure_kernel_loader.EventLog.Records.{Event20}
use secure_kernel_loader.EventLog.Kept.{Logs, Logs-kept, entry}
use secure_kernel_loader.Pci.{Io}
use secure_kernel_loader.Iommu.{Mmio, Machine, iommu_setup}
use secure_kernel_loader.Iommu.Frame.{IsQuiet, iommu_setup-keeps}
use secure_kernel_loader.Linux.{BootParams, boot_params, code_size}
use secure_kernel_loader.Loader.{Loader, returns}
use secure_kernel_loader.Loader.Measure.{release}
use secure_kernel_loader.Loader.Multiboot.{measured_kernel}
use secure_kernel_loader.Loader.Boot.{Places, setup, skl_linux}
use secure_kernel_loader.Loader.Kernel.{skl_linux-IsMeasured}
use secure_kernel_loader.Loader.Logged.{
  Request, event_of, log_of, IsReady, IsLogged, IsClear, extend_pcr-Logged,
}

-- The events behind a measurement at the state s: one more, or the same where it does not fit.
abbrev pub IsNext : {D H : Type 0} → Loader D H → List Event20 → Event20 → List Event20 → Type 0
IsNext s es e es' =
    let next = s.log.ptr_current + length (entry s.tpm.family e) in
    ((next < s.log.limit) × (es' ≡ es ++ e ∷ [])) ⊎ ((s.log.limit ≤ next) × (es' ≡ es))

pub logged-IsNext :
    {D H : Type 0} (h z : ℕ) (s k : Loader D H) (es : List Event20) (e : Event20)
    → IsLogged s.tpm.family h z s es e k
    → (es' : List Event20) × IsNext s es e es' × IsReady h z k es'
logged-IsNext h z s k es e (inl (fits, ptr, r)) = (es ++ e ∷ [], inl (fits, refl), r)
logged-IsNext h z s k es e (inr (full, r)) = (es, inr (full, refl), r)

-- The measurement of a Linux kernel's code.
abbrev pub linux_request : BootParams → Request
linux_request b = record {
  address = b.code32_start;
  size = code_size b;
  pcr = 17;
  text = measured_kernel;
}

module _ {D : Type 0} (ops : Ops D) where
  -- Letting the TPM go does not touch memory or the log.
  abbrev IsSame : Tpm D → Tpm D → Type 0
  IsSame t u = (u.family ≡ t.family) × (u.memory ≡ t.memory)

  relinquish-IsSame : (t u : Tpm D) → tpm_relinquish_locality ops t ≡ some u → IsSame t u
  unfolding tpm_relinquish_locality
  relinquish-IsSame t u e =
      let freed = record t {
        device = ops.relinquish_locality t.device;
        buff = free_tpmbuff t.buff;
      } in
      elim (if_eq t.has_buff (some freed) none (some u) e) [
        | inl (b, e') ↦ let q : freed ≡ u = cc in subst (IsSame t) q (refl, refl)
        | inr (b, e') ↦ absurd cc
      ]

  pub released_logs :
      {H : Type 0} (s k : Loader D H) (es : List Event20)
      → release ops s ≡ some k
      → Logs s.tpm.family (log_of s) es
      → Logs k.tpm.family (log_of k) es
  unfolding release
  released_logs {H} s k es e logs = elim (Option-cases (tpm_relinquish_locality ops s.tpm)) [
    | inl e1 ↦ absurd (let e' = (rw (release, e1) at e) in cc)
    | inr (t, e1) ↦ elim (Option-cases (tpm_relinquish_locality ops t)) [
      | inl e2 ↦ absurd (let e' = (rw (release, e1, e2) at e) in cc)
      | inr (u, e2) ↦
          let q : record s { tpm = u } ≡ k = let e' = (rw (release, e1, e2) at e) in cc in
          let (family1, memory1) = relinquish-IsSame s.tpm t e1 in
          let (family2, memory2) = relinquish-IsSame t u e2 in
          subst (λ (k : Loader D H). Logs k.tpm.family (log_of k) es) q
            (rw (family2 ∙ family1, memory2 ∙ memory1) logs)
    ]
  ]

module _ {D H : Type 0} (ops : Ops D) (io : Io H) (regs : Mmio H) (poll : Machine H → Machine H)
    (places : Places) (fuel h z : ℕ) (wide : z < 2 ^ 32) (room : header_size ≤ z)
    (c : IsContained ops) where
  -- No byte of the log is written while the IOMMU is set up.
  abbrev pub IsQuietLog : ℕ → Log → Type 0
  IsQuietLog n l =
      (x : ℕ)
      → l.evtlog_base ≤ x
      → x < l.limit
      → IsQuiet regs places.tables poll places.iommu_done n x

  setup-IsReady :
      (n : ℕ) (s p : Loader D H) (es : List Event20)
      → IsQuietLog n s.log
      → IsReady h z s es
      → setup ops io regs poll places fuel s ≡ some p
      → IsReady h z p es
  unfolding setup
  setup-IsReady n s p es quiet r e =
      elim (Option-cases (iommu_setup io regs places.tables poll fuel start places.iommu_done)) [
        | inl e1 ↦ absurd (let e2 = (rw (setup, e1) at e) in cc)
        | inr (k, e1) ↦
            let q : record s { hardware = k.hardware; tpm = record s.tpm { memory = k.memory } }
                ≡ p =
              let e2 = (rw (setup, e1) at e) in cc in
            subst (λ (p : Loader D H). IsReady h z p es) q
              (record {
                held = r.held;
                apart = r.apart;
                logs = Logs-kept s.tpm.family (log_of s) es k.memory r.logs (λ x l u.
                    iommu_setup-keeps io regs places.tables poll places.iommu_done n x (quiet x l u)
                      fuel start k e1);
              })
      ]
    where
      start : Machine H
      start = record { hardware = s.hardware; memory = s.tpm.memory }

  -- What skl_linux has left in the log; `p` is the state at which the kernel was measured.
  pub record IsTraced (s k : Loader D H) (es es' : List Event20) (zero_page : ℕ) : Type 0 where
    pub p : Loader D H
    pub set_up : setup ops io regs poll places fuel s ≡ some p
    pub next :
        IsNext p es (event_of p.tpm.memory (linux_request (boot_params p.tpm.memory zero_page))) es'
    pub logs : Logs k.tpm.family (log_of k) es'

  pub skl_linux-IsTraced :
      (n : ℕ) (s k : Loader D H) (es : List Event20) (skl_tag pm_entry zero_page : ℕ)
      → IsReady h z s es
      → IsQuietLog n s.log
      → ((p : Loader D H)
          → setup ops io regs poll places fuel s ≡ some p
          → IsClear h z (linux_request (boot_params p.tpm.memory zero_page)))
      → skl_linux ops io regs poll places fuel s skl_tag ≡ some (returns k pm_entry zero_page)
      → (es' : List Event20) × IsTraced s k es es' zero_page
  skl_linux-IsTraced n s k es skl_tag pm_entry zero_page r quiet clear e =
      let m = skl_linux-IsMeasured ops io regs poll places fuel s k skl_tag pm_entry zero_page e in
      let request = linux_request (boot_params m.p.tpm.memory zero_page) in
      let (l, f) =
        extend_pcr-Logged ops h z wide room c m.p request es m.q (omega arith) (clear m.p m.set_up)
          (setup-IsReady n s m.p es quiet r m.set_up) m.measured in
      let (es', next, ready) = logged-IsNext h z m.p m.q es (event_of m.p.tpm.memory request) l in
      (
        es',
        record {
          p = m.p;
          set_up = m.set_up;
          next = next;
          logs = released_logs ops m.q k es' m.released ready.logs;
        },
      )
