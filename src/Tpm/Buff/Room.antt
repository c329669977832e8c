-- ===== src/Tpm/Buff/Room.antt =====
-- What the operations of tpm_buff.c leave alone: memory outside the buffer, and the place of the
-- buffer itself.
use secure_kernel_loader.Base.{
  ℕ, ◌+◌, ◌^◌, ◌≤◌, ◌<◌, ◌≡◌, refl, ◌∙◌, false, List, length, arith, inl, inr, Bool-cases, ltb,
  ◌==◌, u64,
}
use secure_kernel_loader.Base.Memory.{Memory, Outside, store, memset, store-Outside, memset-Outside}
use secure_kernel_loader.Tpm.Buff.{
  TpmBuff, header_size, tpmb_reserve, tpmb_free, tpmb_put, tpmb_trim,
}

-- The memories agree outside the z bytes at h.
abbrev pub Agrees : ℕ → ℕ → Memory → Memory → Type 0
Agrees h z m k = (x : ℕ) → Outside h z x → k x ≡ m x

pub Agrees-trans : (h z : ℕ) (m k j : Memory) → Agrees h z m k → Agrees h z k j → Agrees h z m j
Agrees-trans h z m k j p q x o = q x o ∙ p x o

pub store-Agrees :
    (h z : ℕ) (m k : Memory) (a : ℕ) (bs : List ℕ)
    → Agrees h z m k
    → h ≤ a
    → a + length bs ≤ h + z
    → Agrees h z m (store k a bs)
store-Agrees h z m k a bs p lo hi x o = store-Outside k a bs x (omega arith) ∙ p x o

pub memset-Agrees :
    (h z : ℕ) (m k : Memory) (a c n : ℕ)
    → Agrees h z m k
    → h ≤ a
    → a + n ≤ h + z
    → Agrees h z m (memset k a c n)
memset-Agrees h z m k a c n p lo hi x o = memset-Outside k a c n x (omega arith) ∙ p x o

-- The buffer stands at h and has z bytes, which are enough for what it holds.
pub record IsHeld (h z : ℕ) (b : TpmBuff) : Type 0 where
  pub head : b.head ≡ h
  pub truesize : b.truesize ≡ z
  pub fits : b.len ≤ z

-- One that a command uses: its tail is behind its length.
pub record IsUsed (h z : ℕ) (b : TpmBuff) : Type 0 where
  pub held : IsHeld h z b
  pub at_tail : b.tail ≡ h + b.len

module _ (h z : ℕ) (wide : z < 2 ^ 32) where
  pub tpmb_free-IsHeld : (m : Memory) (b : TpmBuff) → IsHeld h z b → IsHeld h z (tpmb_free m b).1
  unfolding tpmb_free
  tpmb_free-IsHeld m b p = record { head = p.head; truesize = p.truesize; fits = omega arith }

  pub tpmb_free-Agrees :
      (m k : Memory) (b : TpmBuff) → Agrees h z m k → IsHeld h z b → Agrees h z m (tpmb_free k b).0
  unfolding tpmb_free
  tpmb_free-Agrees m k b a p =
      memset-Agrees h z m k b.head 0 b.len a (omega (arith, p.head)) (omega (arith, p.head, p.fits))

  -- After tpmb_free the header is always reserved, at the head.
  pub tpmb_reserve_freed :
      (m : Memory) (b : TpmBuff)
      → header_size ≤ z
      → IsHeld h z b
      → let r = tpmb_reserve (tpmb_free m b).1 in
        (r.1 ≡ h) × (r.0.len ≡ header_size) × IsUsed h z r.0
  unfolding tpmb_free tpmb_reserve
  tpmb_reserve_freed m b room p = (
    p.head,
    refl,
    record {
      held = record { head = p.head; truesize = p.truesize; fits = room };
      at_tail = omega (arith, p.head);
    },
  )

  pub tpmb_put-IsUsed :
      (b : TpmBuff) (n : ℕ) → n < 2 ^ 32 → IsUsed h z b → IsUsed h z (tpmb_put b n).0
  unfolding tpmb_put
  tpmb_put-IsUsed b n small p = elim (Bool-cases (ltb b.truesize (u64 (b.len + n)))) [
    | inl full ↦ rw full p
    | inr fits ↦ rw fits (record {
      held = record {
        head = p.held.head;
        truesize = p.held.truesize;
        fits = ground (arith, p.held.truesize, p.held.fits, fits);
      };
      at_tail = omega (arith, p.at_tail);
    })
  ]

  -- Where tpmb_put returns a pointer, it is the old tail, and the bytes fit.
  pub tpmb_put_placed :
      (b : TpmBuff) (n : ℕ)
      → n < 2 ^ 32
      → IsUsed h z b
      → ((tpmb_put b n).1 == 0) ≡ false
      → ((tpmb_put b n).1 ≡ h + b.len) × ((tpmb_put b n).0.len ≡ b.len + n) × (b.len + n ≤ z)
  unfolding tpmb_put
  tpmb_put_placed b n small p e = elim (Bool-cases (ltb b.truesize (u64 (b.len + n)))) [
    | inl full ↦ absurd (ground (arith, full))
    | inr fits ↦ rw fits (p.at_tail, refl, ground (arith, p.held.truesize, p.held.fits, fits))
  ]

  pub tpmb_trim-IsUsed : (b : TpmBuff) (n : ℕ) → IsUsed h z b → IsUsed h z (tpmb_trim b n).0
  unfolding tpmb_trim
  tpmb_trim-IsUsed b n p = record {
    held = record {
      head = p.held.head;
      truesize = p.held.truesize;
      fits = omega (arith, p.held.fits);
    };
    at_tail = ground (arith, p.at_tail);
  }
