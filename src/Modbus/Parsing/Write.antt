-- ===== src/Modbus/Parsing/Write.antt =====
-- The assignments of `encode_fields_to_registers` (workers/modbus/parsing.rs) to its buffer.
use roboplc_middle.Prelude.{
  ℕ, zero, suc, ◌+◌, ◌≤◌, ◌<◌, ◌≡◌, refl, ap, ◌∙◌, ◌⊎◌, arith, List, [], ◌∷◌, length, length-set,
  set,
}
use roboplc_middle.Prelude.Attempt.{done, panicked}
use roboplc_middle.Modbus.Parsing.{write_registers}
use roboplc_middle.Modbus.Parsing.Registers.{slice}

-- The buffer after the assignments, where all are in bounds.
pub written : List ℕ → ℕ → List ℕ → List ℕ
written regs offset [] = regs
written regs offset (w ∷ ws) = written (set regs offset w) (suc offset) ws

pub write_registers-fits :
    (ws regs : List ℕ) (offset : ℕ)
    → offset + length ws ≤ length regs
    → write_registers regs offset ws ≡ done (written regs offset ws)
unfolding write_registers written
write_registers-fits [] regs offset h = refl
write_registers-fits (w ∷ ws) regs offset h =
    ground
      (arith, length-set regs offset w, write_registers-fits ws (set regs offset w) (suc offset))

pub write_registers-panics :
    (ws regs : List ℕ) (offset : ℕ)
    → 0 < length ws
    → length regs < offset + length ws
    → write_registers regs offset ws ≡ panicked
unfolding write_registers
write_registers-panics [] regs offset p h = absurd (omega arith)
write_registers-panics (w ∷ []) regs offset p h = ground arith
write_registers-panics (w ∷ v ∷ ws) regs offset p h = ground (
  arith,
  length-set regs offset w,
  write_registers-panics (v ∷ ws) (set regs offset w) (suc offset),
)

pub length-written : (ws regs : List ℕ) (offset : ℕ) → length (written regs offset ws) ≡ length regs
unfolding written
length-written [] regs offset = refl
length-written (w ∷ ws) regs offset =
    length-written ws (set regs offset w) (suc offset) ∙ length-set regs offset w

written-cons :
    (ws regs : List ℕ) (r offset : ℕ)
    → written (r ∷ regs) (suc offset) ws ≡ r ∷ written regs offset ws
unfolding written
written-cons [] regs r offset = refl
written-cons (w ∷ ws) regs r offset = written-cons ws (set regs offset w) r (suc offset)

-- What was written stands there.
pub slice-written_self :
    (regs ws : List ℕ) (offset : ℕ)
    → offset + length ws ≤ length regs
    → slice (written regs offset ws) offset (length ws) ≡ ws
unfolding written
slice-written_self regs [] offset h = refl
slice-written_self [] (w ∷ ws) offset h = absurd (omega arith)
slice-written_self (r ∷ regs) (w ∷ ws) zero h =
    rw (written-cons ws regs w zero)
      (ap (λ (t : List ℕ). w ∷ t) (slice-written_self regs ws zero (omega arith)))
slice-written_self (r ∷ regs) (w ∷ ws) (suc offset) h =
    rw (written-cons ws (set regs offset w) r (suc offset))
      (slice-written_self regs (w ∷ ws) offset (omega arith))

slice-set_ne :
    (regs : List ℕ) (i v offset n : ℕ)
    → (i < offset) ⊎ (offset + n ≤ i)
    → slice (set regs i v) offset n ≡ slice regs offset n
slice-set_ne [] i v offset n h = refl
slice-set_ne (r ∷ regs) i v zero zero h = refl
slice-set_ne (r ∷ regs) zero v zero (suc n) h = absurd (omega arith)
slice-set_ne (r ∷ regs) (suc i) v zero (suc n) h =
    ap (λ (t : List ℕ). r ∷ t) (slice-set_ne regs i v zero n (omega arith))
slice-set_ne (r ∷ regs) zero v (suc offset) n h = refl
slice-set_ne (r ∷ regs) (suc i) v (suc offset) n h = slice-set_ne regs i v offset n (omega arith)

-- Registers outside the written range keep their values.
pub slice-written_ne :
    (ws regs : List ℕ) (start offset n : ℕ)
    → (start + length ws ≤ offset) ⊎ (offset + n ≤ start)
    → slice (written regs start ws) offset n ≡ slice regs offset n
unfolding written
slice-written_ne [] regs start offset n h = refl
slice-written_ne (w ∷ ws) regs start offset n h =
    slice-written_ne ws (set regs start w) (suc start) offset n (omega arith)
    ∙ slice-set_ne regs start w offset n (omega arith)
