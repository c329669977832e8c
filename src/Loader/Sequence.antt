-- ===== src/Loader/Sequence.antt =====
-- Measurements one after another, and the log that they leave.
use mathlib.Core.Path.{subst}
use mathlib.Core.List.{append_assoc, append-nil}
use secure_kernel_loader.Base.{
  ℕ, ◌+◌, ◌^◌, ◌≤◌, ◌<◌, ◌≡◌, refl, ◌⊎◌, inl, inr, Option, some, List, [], ◌∷◌, ◌++◌, map, arith,
  length, ◌>>=◌, bind_some,
}
use secure_kernel_loader.Base.Memory.{Memory, load, load_agree}
use secure_kernel_loader.Tpm.Types.{Family}
use secure_kernel_loader.Tpm.Buff.{header_size}
use secure_kernel_loader.Tpm.Device.{Ops}
use secure_kernel_loader.Tpm.Keeps.{IsContained}
use secure_kernel_loader.EventLog.{Log}
use secure_kernel_loader.EventLog.Records.{Event20}
use secure_kernel_loader.EventLog.Kept.{entry}
use secure_kernel_loader.Loader.{Loader}
use secure_kernel_loader.Loader.Measure.{extend_pcr}
use secure_kernel_loader.Loader.Logged.{
  Request, event_of, IsReady, IsFramed, IsFramed-trans, IsClear, IsFramed-refl, extend_pcr-Logged,
}

-- What is measured lies apart from the buffer and from the log, and its text is not too long.
pub record IsSeparate (h z : ℕ) (l : Log) (q : Request) : Type 0 where
  pub clear : IsClear h z q
  pub unlogged : (q.address + q.size ≤ l.evtlog_base) ⊎ (l.limit ≤ q.address)
  pub short : length q.text < 2 ^ 32

abbrev pub AllSeparate : ℕ → ℕ → Log → List Request → Type 0
AllSeparate h z l [] = Unit {0}
AllSeparate h z l (q ∷ qs) = IsSeparate h z l q × AllSeparate h z l qs

-- The bytes that the events take up in the log.
abbrev pub needed : Family → Memory → List Request → ℕ
needed f m [] = 0
needed f m (q ∷ qs) = length (entry f (event_of m q)) + needed f m qs

module _ {D H : Type 0} (h z : ℕ) where
  IsSeparate-kept :
      (s k : Loader D H) (q : Request)
      → IsFramed h z s k
      → IsSeparate h z s.log q
      → IsSeparate h z k.log q
  IsSeparate-kept s k q f p = record {
    clear = p.clear;
    unlogged = omega (arith, p.unlogged, f.base, f.limit);
    short = p.short;
  }

  pub AllSeparate-kept :
      (s k : Loader D H) (qs : List Request)
      → IsFramed h z s k
      → AllSeparate h z s.log qs
      → AllSeparate h z k.log qs
  AllSeparate-kept s k [] f p = p
  AllSeparate-kept s k (q ∷ qs) f (p, ps) =
      (IsSeparate-kept s k q f p, AllSeparate-kept s k qs f ps)

  -- Measurements elsewhere do not change what is measured.
  event_of-kept :
      (s k : Loader D H) (q : Request)
      → IsFramed h z s k
      → IsSeparate h z s.log q
      → event_of k.tpm.memory q ≡ event_of s.tpm.memory q
  event_of-kept s k q f p =
      let bytes : load k.tpm.memory q.address q.size ≡ load s.tpm.memory q.address q.size =
        load_agree k.tpm.memory s.tpm.memory q.address q.size
          (λ x lo hi. f.outside x (omega (arith, p.clear)) (omega (arith, p.unlogged))) in
      rw bytes refl

  pub events_of-kept :
      (s k : Loader D H) (qs : List Request)
      → IsFramed h z s k
      → AllSeparate h z s.log qs
      → map (event_of k.tpm.memory) qs ≡ map (event_of s.tpm.memory) qs
  events_of-kept s k [] f p = refl
  events_of-kept s k (q ∷ qs) f (p, ps) =
      rw (event_of-kept s k q f p, events_of-kept s k qs f ps) refl

  needed-kept :
      (s k : Loader D H) (qs : List Request)
      → IsFramed h z s k
      → AllSeparate h z s.log qs
      → needed k.tpm.family k.tpm.memory qs ≡ needed s.tpm.family s.tpm.memory qs
  needed-kept s k [] f p = refl
  needed-kept s k (q ∷ qs) f (p, ps) =
      rw (event_of-kept s k q f p, needed-kept s k qs f ps, f.family) refl

module _ {D H : Type 0} (ops : Ops D) (h z : ℕ) (wide : z < 2 ^ 32) (room : header_size ≤ z)
    (c : IsContained ops) where
  -- One after another, as long as they return.
  unfoldable pub extend_all : Loader D H → List Request → Option (Loader D H)
  extend_all s [] = some s
  extend_all s (q ∷ qs) = extend_pcr ops s q.address q.size q.pcr q.text >>= λ k. extend_all k qs

  -- From a loader that is ready on, measurements that are apart from the buffer and from the log, and
  -- that return, log their events in their order if those and one byte more fit into the log. The
  -- digests are those of the bytes before the first measurement.
  pub extend_all-Logged :
      (qs : List Request) (s k : Loader D H) (es : List Event20)
      → IsReady h z s es
      → AllSeparate h z s.log qs
      → s.log.ptr_current + needed s.tpm.family s.tpm.memory qs < s.log.limit
      → extend_all s qs ≡ some k
      → IsReady h z k (es ++ map (event_of s.tpm.memory) qs) × IsFramed h z s k
  unfolding extend_all
  extend_all-Logged [] s k es r p n e =
      let q : s ≡ k = cc in
      subst (λ (k : Loader D H). IsReady h z k (es ++ []) × IsFramed h z s k) q
        (rw (append-nil es) r, IsFramed-refl h z s)
  extend_all-Logged (q ∷ qs) s k es r (p, ps) n e =
      let (j, e1, e2) =
        bind_some (extend_pcr ops s q.address q.size q.pcr q.text) (λ k. extend_all k qs) k e in
      let (l, f) = extend_pcr-Logged ops h z wide room c s q es j p.short p.clear r e1 in
      elim l [
        | inl (fits, ptr, ready) ↦
            let n' = needed-kept h z s j qs f ps in
            let (r', f') =
              extend_all-Logged qs j k (es ++ event_of s.tpm.memory q ∷ []) ready
                (AllSeparate-kept h z s j qs f ps) (omega (arith, n, n', ptr, f.limit)) e2 in
            (
              rw
                  (
                    ← append_assoc es (event_of s.tpm.memory q ∷ [])
                        (map (event_of s.tpm.memory) qs),
                    ← events_of-kept h z s j qs f ps,
                  )
                  r',
              IsFramed-trans h z s j k f f',
            )
        | inr (full, ready) ↦ absurd (omega (arith, full, n))
      ]
