-- ===== src/EventLog/Records.antt =====
-- The packed structs of event_log.c as bytes.
use Prim.Native.Char.{code}
use Prim.Native.String.{String}
use secure_kernel_loader.Base.{ℕ, List, [], ◌∷◌, ◌++◌, length, le16, le32, le64, u32, replicate}

abbrev pub codes : String → List ℕ
codes String.[] = []
codes (String.◌∷◌ c s) = code c ∷ codes s

abbrev pub ev_no_action : ℕ
ev_no_action = 0x3

abbrev pub ev_type_slaunch : ℕ
ev_type_slaunch = 0x502

-- What a call of log_event_tpm12 or log_event_tpm20 is given: digests of 20 and 32 bytes.
pub record Event12 : Type 0 where
  pub pcr : ℕ
  pub sha1 : List ℕ
  pub event : List ℕ

pub record Event20 : Type 0 where
  pub pcr : ℕ
  pub sha1 : List ℕ
  pub sha256 : List ℕ
  pub event : List ℕ

-- tpm12_event_t, 32 bytes: the digest is copied by length, whatever follows it in memory.
abbrev pub header12_bytes : ℕ → ℕ → List ℕ → ℕ → List ℕ
header12_bytes pcr event_type digest event_size =
    le32 pcr ++ (le32 event_type ++ (digest ++ le32 event_size))

abbrev pub event12_bytes : Event12 → List ℕ
event12_bytes e = header12_bytes e.pcr ev_type_slaunch e.sha1 (u32 (length e.event))

-- tpm20_event_t, 72 bytes, with ev_log_hash_t of include/boot.h inside.
abbrev pub event20_bytes : Event20 → List ℕ
event20_bytes e =
    le32 e.pcr
    ++ (le32 ev_type_slaunch
        ++ (le32 2
            ++ (le16 4 ++ (e.sha1 ++ (le16 0xB ++ (e.sha256 ++ le32 (u32 (length e.event))))))))

-- tpm12_spec_id_ev_t, 73 bytes, as initialised, with the container's size.
abbrev pub spec_id12_bytes : ℕ → List ℕ
spec_id12_bytes container_size =
    codes "Spec ID Event00"
    ++ (replicate 5 0
        ++ ((2 ∷ 1 ∷ 1 ∷ 0 ∷ 48 ∷ [])
            ++ (codes "TXT Event Container"
                ++ (replicate 13 0
                    ++ ((1 ∷ 0 ∷ 1 ∷ 0 ∷ []) ++ (le32 container_size ++ (le32 48 ++ le32 48)))))))

-- tpm20_spec_id_ev_t, 57 bytes, with the log's address and size.
abbrev pub spec_id20_bytes : ℕ → ℕ → List ℕ
spec_id20_bytes phys_addr allocated =
    codes "Spec ID Event03"
    ++ (replicate 5 0
        ++ ((0 ∷ 2 ∷ 0 ∷ 2 ∷ [])
            ++ (le32 2
                ++ (le16 4
                    ++ (le16 20
                        ++ (le16 0xB
                            ++ (le16 32
                                ++ ((20 ∷ [])
                                    ++ (le64 phys_addr
                                        ++ (le32 allocated ++ (le32 0 ++ le32 89)))))))))))
