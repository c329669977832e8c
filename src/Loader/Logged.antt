-- ===== src/Loader/Logged.antt =====
-- extend_pcr as the loader's callers see it: what it measures is what it logs, and it writes nothing
-- but the TPM's buffer and the log.
use mathlib.Core.Path.{subst}
use secure_kernel_loader.Base.{
  ℕ, ◌+◌, ◌^◌, ◌≤◌, ◌<◌, ◌≡◌, refl, ◌∙◌, sym, ap, ◌⊎◌, inl, inr, some, Option-cases, List, [], ◌∷◌,
  ◌++◌, arith, length,
}
use secure_kernel_loader.Base.Memory.{Memory, Outside, load, load_agree}
use secure_kernel_loader.Sha.Sha1.{sha1sum}
use secure_kernel_loader.Sha.Sha256.{sha256sum}
use secure_kernel_loader.Tpm.Types.{Family, tpm12, tpm20, tpm_alg_sha1, tpm_alg_sha256}
use secure_kernel_loader.Tpm.Buff.{header_size}
use secure_kernel_loader.Tpm.Buff.Room.{IsHeld}
use secure_kernel_loader.Tpm.Device.{Ops, Tpm}
use secure_kernel_loader.Tpm.Keeps.{IsContained, Keeps, Keeps-trans}
use secure_kernel_loader.Tpm.Front.{tpm_extend_pcr}
use secure_kernel_loader.Tpm.Front.Keeps.{tpm_extend_pcr-Keeps}
use secure_kernel_loader.EventLog.{Log}
use secure_kernel_loader.EventLog.Records.{Event20}
use secure_kernel_loader.EventLog.Kept.{
  Logs, Logs-kept, entry, log_event, log_event-Appends, log_event-IsWithin, log_ends,
}
use secure_kernel_loader.Loader.{Loader}
use secure_kernel_loader.Loader.Measure.{extend_rest, extend_text, extend_pcr, with_log}

-- The log with the memory as it is now.
abbrev pub log_of : {D H : Type 0} → Loader D H → Log
log_of s = record s.log { memory = s.tpm.memory }

-- One measurement that is asked for.
pub record Request : Type 0 where
  pub address : ℕ
  pub size : ℕ
  pub pcr : ℕ
  pub text : List ℕ

-- Its event: the digests are those of the bytes in memory.
abbrev pub event_of : Memory → Request → Event20
event_of m q =
    let bytes = load m q.address q.size in
    record {
      pcr = q.pcr;
      sha1 = sha1sum bytes q.size;
      sha256 = sha256sum bytes q.size;
      event = q.text;
    }

-- The TPM's buffer lies at h and has z bytes, apart from the log; the log holds the events.
pub record IsReady {D H : Type 0} (h z : ℕ) (s : Loader D H) (es : List Event20) : Type 0 where
  pub held : IsHeld h z s.tpm.buff
  pub apart : (h + z ≤ s.log.evtlog_base) ⊎ (s.log.limit ≤ h)
  pub logs : Logs s.tpm.family (log_of s) es

-- Nothing but the buffer and the log is written, and the log stays where it is.
pub record IsFramed {D H : Type 0} (h z : ℕ) (s k : Loader D H) : Type 0 where
  pub base : k.log.evtlog_base ≡ s.log.evtlog_base
  pub limit : k.log.limit ≡ s.log.limit
  pub family : k.tpm.family ≡ s.tpm.family
  pub outside :
      (x : ℕ)
      → Outside h z x
      → (x < s.log.evtlog_base) ⊎ (s.log.limit ≤ x)
      → k.tpm.memory x ≡ s.tpm.memory x

pub IsFramed-refl : {D H : Type 0} (h z : ℕ) (s : Loader D H) → IsFramed h z s s
IsFramed-refl h z s = record { base = refl; limit = refl; family = refl; outside = λ x o l. refl }

pub IsFramed-trans :
    {D H : Type 0} (h z : ℕ) (s k j : Loader D H)
    → IsFramed h z s k
    → IsFramed h z k j
    → IsFramed h z s j
IsFramed-trans h z s k j p q = record {
  base = q.base ∙ p.base;
  limit = q.limit ∙ p.limit;
  family = q.family ∙ p.family;
  outside = λ x o l. q.outside x o (omega (arith, l, p.base, p.limit)) ∙ p.outside x o l;
}

-- The event is the next in the log, or does not fit with one more byte and is missing.
abbrev pub IsLogged :
    {D H : Type 0} → Family → ℕ → ℕ → Loader D H → List Event20 → Event20 → Loader D H → Type 0
IsLogged f h z s es e k =
    let next = s.log.ptr_current + length (entry f e) in
    ((next < s.log.limit) × (k.log.ptr_current ≡ next) × IsReady h z k (es ++ e ∷ []))
    ⊎ ((s.log.limit ≤ next) × IsReady h z k es)

-- Either way the loader is ready for the next measurement.
pub ready_next :
    {D H : Type 0} (f : Family) (h z : ℕ) (s : Loader D H) (es : List Event20) (e : Event20)
    (k : Loader D H)
    → IsLogged f h z s es e k
    → (es' : List Event20) × IsReady h z k es'
ready_next f h z s es e k (inl (fits, ptr, r)) = (es ++ e ∷ [], r)
ready_next f h z s es e k (inr (full, r)) = (es, r)

module _ {D H : Type 0} (h z : ℕ) where
  -- The loader with the TPM as a call of the driver leaves it.
  abbrev with_tpm : Loader D H → Tpm D → Loader D H
  with_tpm s t = record s { tpm = t }

  kept_ready :
      (s : Loader D H) (t : Tpm D) (es : List Event20)
      → IsReady h z s es
      → Keeps h z s.tpm t
      → IsReady h z (with_tpm s t) es
  kept_ready s t es r k = record {
    held = k.held;
    apart = r.apart;
    logs = rw k.family (
        Logs-kept s.tpm.family (log_of s) es t.memory r.logs
          (λ x p q. k.agrees x (omega (arith, r.apart))));
  }

  -- A call of event_log.c on the loader.
  logged :
      (ops : Ops D) (s : Loader D H) (es : List Event20) (e : Event20)
      → length e.event < 2 ^ 32
      → IsReady h z s es
      → let k = with_log ops s (λ l. log_event s.tpm.family l e) in
        IsLogged s.tpm.family h z s es e k × IsFramed h z s k
  logged ops s es e short r =
      let f = s.tpm.family in
      let l = log_of s in
      let w = log_event-IsWithin f l es e r.logs short in
      (
        elim (log_event-Appends f l es e r.logs short) [
          | inl (fits, ok, logs) ↦ inl (
            fits,
            log_ends f l (log_event f l e).0 es e w.base r.logs logs,
            record { held = r.held; apart = ground (arith, r.apart, w.base, w.top); logs = logs },
          )
          | inr (full, same) ↦ inr (
            full,
            record {
              held = r.held;
              apart = ground (arith, r.apart, w.base, w.top);
              logs = rw same r.logs;
            },
          )
        ],
        record { base = w.base; limit = w.top; family = refl; outside = λ x o p. w.outside x p },
      )

  -- The same behind calls of the driver.
  logged_behind :
      (ops : Ops D) (s : Loader D H) (t : Tpm D) (es : List Event20) (e : Event20) (k : Loader D H)
      → length e.event < 2 ^ 32
      → IsReady h z s es
      → Keeps h z s.tpm t
      → with_log ops (with_tpm s t) (λ l. log_event t.family l e) ≡ k
      → IsLogged s.tpm.family h z s es e k × IsFramed h z s k
  logged_behind ops s t es e k short r kept same =
      let (l, f) = logged ops (with_tpm s t) es e short (kept_ready s t es r kept) in
      let with = with_log ops (with_tpm s t) (λ l. log_event t.family l e) in
      let framed : IsFramed h z s with = record {
        base = f.base;
        limit = f.limit;
        family = f.family ∙ kept.family;
        outside = λ x o p. f.outside x o p ∙ kept.agrees x o;
      } in
      let holds = subst (λ (f : Family). IsLogged f h z s es e with) kept.family l in
      subst (λ (k : Loader D H). IsLogged s.tpm.family h z s es e k × IsFramed h z s k) same
        (holds, framed)

-- The bytes that are measured lie apart from the TPM's buffer.
abbrev pub IsClear : ℕ → ℕ → Request → Type 0
IsClear h z q = (q.address + q.size ≤ h) ⊎ (h + z ≤ q.address)

module _ {D H : Type 0} (ops : Ops D) (h z : ℕ) (wide : z < 2 ^ 32) (room : header_size ≤ z)
    (c : IsContained ops) where
  extend_rest-Logged :
      (f : Family) (s : Loader D H) (t : Tpm D) (q : Request) (es : List Event20) (k : Loader D H)
      → s.tpm.family ≡ f
      → length q.text < 2 ^ 32
      → IsClear h z q
      → IsReady h z s es
      → Keeps h z s.tpm t
      → extend_rest ops f
          (with_tpm h z s t)
          (event_of s.tpm.memory q).sha1
          q.address
          q.size
          q.pcr
          (λ m. some q.text)
        ≡ some k
      → IsLogged s.tpm.family h z s es (event_of s.tpm.memory q) k × IsFramed h z s k
  unfolding extend_rest
  extend_rest-Logged tpm12 s t q es k f short clear r kept e =
      let e12 = event_of s.tpm.memory q in
      let same : with_log ops (with_tpm h z s t) (λ l. log_event tpm12 l e12) ≡ k = cc in
      logged_behind h z ops s t es e12 k short r kept (
        subst (λ (f : Family). with_log ops (with_tpm h z s t) (λ l. log_event f l e12) ≡ k)
          (sym (kept.family ∙ f)) same)
  extend_rest-Logged tpm20 s t q es k f short clear r kept e =
      elim (Option-cases (tpm_extend_pcr ops t q.pcr tpm_alg_sha256 hash)) [
        | inl e1 ↦ absurd (let e2 = (rw (extend_rest, e1) at e) in cc)
        | inr ((u, ret), e1) ↦
            let more =
              tpm_extend_pcr-Keeps ops h z wide room c t q.pcr tpm_alg_sha256 hash kept.held
                (u, ret) e1 in
            let both : Keeps h z s.tpm u = Keeps-trans h z s.tpm t u kept more in
            let e20 = record (event_of s.tpm.memory q) { sha256 = hash } in
            let same : with_log ops (with_tpm h z s u) (λ l. log_event tpm20 l e20) ≡ k =
              let e2 = (rw (extend_rest, e1) at e) in cc in
            subst
              (λ (sha256 : List ℕ).
                IsLogged s.tpm.family h z s es
                  (record (event_of s.tpm.memory q) { sha256 = sha256 }) k
                × IsFramed h z s k)
              hash-eq
              (logged_behind h z ops s u es e20 k short r both (
                subst (λ (f : Family). with_log ops (with_tpm h z s u) (λ l. log_event f l e20) ≡ k)
                  (sym (both.family ∙ f)) same))
      ]
    where
      hash : List ℕ
      hash = sha256sum (load t.memory q.address q.size) q.size

      hash-eq : hash ≡ (event_of s.tpm.memory q).sha256
      hash-eq =
          ap (λ bytes. sha256sum bytes q.size)
            (load_agree t.memory s.tpm.memory q.address q.size
              (λ x lo hi. kept.agrees x (omega (arith, clear))))

  -- On a loader whose log holds a list of events and is apart from the TPM's buffer, an extend_pcr
  -- with a text below 4 GB, of bytes apart from that buffer, that returns appends their event to
  -- the log, or leaves the log as it is where the event does not fit with one byte more; it writes
  -- nothing but the buffer and the log, and leaves both where they are.
  pub extend_pcr-Logged :
      (s : Loader D H) (q : Request) (es : List Event20) (k : Loader D H)
      → length q.text < 2 ^ 32
      → IsClear h z q
      → IsReady h z s es
      → extend_pcr ops s q.address q.size q.pcr q.text ≡ some k
      → IsLogged s.tpm.family h z s es (event_of s.tpm.memory q) k × IsFramed h z s k
  unfolding extend_pcr extend_text
  extend_pcr-Logged s q es k short clear r e =
      elim (Option-cases (tpm_extend_pcr ops s.tpm q.pcr tpm_alg_sha1 hash)) [
        | inl e1 ↦ absurd (let e2 = (rw (extend_pcr, extend_text, e1) at e) in cc)
        | inr ((t, ret), e1) ↦
            extend_rest-Logged s.tpm.family s t q es k refl short clear r
              (tpm_extend_pcr-Keeps ops h z wide room c s.tpm q.pcr tpm_alg_sha1 hash r.held
                (t, ret) e1)
              (rw (extend_pcr, extend_text, e1) at e)
      ]
    where
      hash : List ℕ
      hash = sha1sum (load s.tpm.memory q.address q.size) q.size
