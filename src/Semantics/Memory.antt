-- ===== src/Semantics/Memory.antt =====
-- Loads and stores with `RISCV_FORMAL_ALIGNED_MEM`: the bytes of the memory word that a store
-- writes, and what a load of the same address then reads.
use native.Mathlib.Nat.{mod-mod}
use native.Mathlib.Decide.{dec_lt}
use riscv_formal.Prelude.{
  ℕ, ◌+◌, ◌-◌, ◌*◌, ◌%◌, ◌^◌, ◌<◌, ◌≤◌, ◌≡◌, ◌⊎◌, inl, inr, sym, ap, ◌∙◌, ◌==◌, ◌&&◌, leb, ltb,
  if◌then◌else◌, arith,
}
use riscv_formal.Verilog.{bit, wrap, shl, shr}
use riscv_formal.Insns.Bitmanip.{assemble}
use riscv_formal.Semantics.Slots.{
  slot, slot-mod, slot-assemble, assemble-congr, assemble-slot, bit-slot,
}
use riscv_formal.Semantics.Masks.{mask-inside, mask-below, mask-above, cancel, div-pow-add}

-- A memory word of n bytes after a write: the bytes that the mask selects are replaced.
unfoldable pub merge_bytes : ℕ → ℕ → ℕ → ℕ → ℕ
merge_bytes n old mask new =
    assemble 8 n (λ k. if bit k mask == 1 then slot 8 k new else slot 8 k old)

slot-merge_bytes :
    (n old mask new k : ℕ)
    → k < n
    → slot 8 k (merge_bytes n old mask new)
      ≡ (if bit k mask == 1 then slot 8 k new else slot 8 k old)
unfolding merge_bytes
slot-merge_bytes n old mask new k h =
    slot-assemble 8 n (λ k. if bit k mask == 1 then slot 8 k new else slot 8 k old) k h
    ∙ ground (arith, mod-mod new 256)

-- The mask of an access, bit by bit.
mask-bit : (w m k : ℕ) → k < w → bit k (wrap w m) ≡ bit k m
mask-bit w m k h =
    let e : 1 * w ≡ w = omega arith in
    sym (bit-slot k _)
    ∙ ap (λ (t : ℕ). slot 1 k (m % 2 ^ t)) (sym e)
    ∙ slot-mod 1 w k m h
    ∙ bit-slot k m

-- Slot off + k of a word that is shifted up by off slots.
shl-slot : (off k x : ℕ) → slot 8 (off + k) (shl x (8 * off)) ≡ slot 8 k x
shl-slot off k x =
    let e : 8 * (off + k) ≡ 8 * off + 8 * k = omega arith in rw (e, div-pow-add, cancel)

shr-slot : (off k x : ℕ) → slot 8 (off + k) x ≡ slot 8 k (shr x (8 * off))
shr-slot off k x = let e : 8 * (off + k) ≡ 8 * off + 8 * k = omega arith in rw (e, div-pow-add)

module _ (w n off old x : ℕ) where
  -- The memory word after a store of the n low bytes of x at byte off.
  abbrev pub stored : ℕ
  stored = merge_bytes w old (wrap w (shl (2 ^ n - 1) off)) (wrap (8 * w) (shl x (8 * off)))

  pub stored-inside : (k : ℕ) → off ≤ k → k < off + n → k < w → slot 8 k stored ≡ slot 8 (k - off) x
  stored-inside k low high h =
      let e : k ≡ off + (k - off) = omega arith in
      let new : slot 8 k (wrap (8 * w) (shl x (8 * off))) ≡ slot 8 (k - off) x =
        slot-mod 8 w k _ h
        ∙ ap (λ (t : ℕ). slot 8 t (shl x (8 * off))) e
        ∙ shl-slot off (k - off) x in
      slot-merge_bytes w old _ _ k h ∙ rw (mask-bit w _ k h, mask-inside n off k low high) new

  pub stored-outside : (k : ℕ) → (k < off) ⊎ (off + n ≤ k) → k < w → slot 8 k stored ≡ slot 8 k old
  stored-outside k (inl below) h =
      slot-merge_bytes w old _ _ k h ∙ rw (mask-bit w _ k h, mask-below n off k below)
  stored-outside k (inr above) h =
      slot-merge_bytes w old _ _ k h ∙ rw (mask-bit w _ k h, mask-above n off k above)

  pub stored-slot :
      (k : ℕ)
      → k < w
      → slot 8 k stored
        ≡ (if leb off k && ltb k (off + n) then slot 8 (k - off) x else slot 8 k old)
  stored-slot k h = elim (dec_lt k off) [
    | yes below ↦ stored-outside k (inl below) h ∙ ground arith
    | no high ↦ elim (dec_lt k (off + n)) [
      | yes inside ↦ stored-inside k (omega arith) inside h ∙ ground arith
      | no above ↦ stored-outside k (inr (omega arith)) h ∙ ground arith
    ]
  ]

  -- The load of the same bytes.
  pub stored-load : off + n ≤ w → wrap (8 * n) (shr stored (8 * off)) ≡ wrap (8 * n) x
  stored-load fits =
      sym (assemble-slot 8 n (shr stored (8 * off)))
      ∙ assemble-congr 8 n _ _ (λ k h.
        let back : off + k - off ≡ k = omega arith in
        ap (λ (t : ℕ). t % 2 ^ 8)
          (sym (shr-slot off k stored)
            ∙ stored-inside (off + k) (omega arith) (omega arith) (omega arith)
            ∙ ap (λ (t : ℕ). slot 8 t x) back))
      ∙ assemble-slot 8 n x
