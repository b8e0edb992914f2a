-- ===== src/Modbus/Parsing/Registers.antt =====
-- Bytes in registers and back: `bytes_to_registers` and `extract_bytes_from_registers` of
-- workers/modbus/parsing.rs.
use roboplc_middle.Prelude.{
  ℕ, zero, suc, ◌+◌, ◌*◌, ◌/◌, ◌%◌, ◌≤◌, ◌<◌, ◌≡◌, refl, ap, ◌∙◌, ◌⊎◌, inl, inr, arith, List, [],
  ◌∷◌, ◌++◌, some, length, get_elem?, take, drop, All,
}
use roboplc_middle.Config.{DataType, u16, bool, required_registers}
use roboplc_middle.Conversion.{bytes_len}
use roboplc_middle.Conversion.Words.{IsByte}
use roboplc_middle.Modbus.Parsing.{
  bytes_to_registers, register_bytes, extract_loop, extract_bytes_from_registers, byte_count,
}

-- The `n` registers from `offset` on.
abbrev pub slice : List ℕ → ℕ → ℕ → List ℕ
slice registers offset n = take n (drop offset registers)

-- The bytes of registers, in the way of `extract_bytes_from_registers`.
unpack : ℕ → List ℕ → List ℕ
unpack count [] = []
unpack count (reg ∷ regs) = register_bytes count reg ++ unpack count regs

slice-suc :
    (regs : List ℕ) (offset n : ℕ)
    → offset < length regs
    → (r : ℕ) × (get_elem? regs offset ≡ some r)
      × (slice regs offset (suc n) ≡ r ∷ slice regs (suc offset) n)
slice-suc [] offset n h = elim h [ ]
slice-suc (r ∷ regs) zero n h = (r, refl, refl)
slice-suc (r ∷ regs) (suc offset) n h = slice-suc regs offset n (omega arith)

extract_loop-unpack :
    (regs : List ℕ) (count offset n : ℕ)
    → offset + n ≤ length regs
    → extract_loop regs count offset n ≡ unpack count (slice regs offset n)
unfolding extract_loop unpack
extract_loop-unpack regs count offset zero h = refl
extract_loop-unpack regs count offset (suc n) h =
    let (r, found, cut) = slice-suc regs offset n (omega arith) in
    rw (found, cut)
      (ap (λ (t : List ℕ). register_bytes count r ++ t)
        (extract_loop-unpack regs count (suc offset) n (omega arith)))

pub length-bytes_to_registers :
    (bytes : List ℕ) → length (bytes_to_registers bytes) ≡ (length bytes + 1) / 2
unfolding bytes_to_registers
length-bytes_to_registers [] = refl
length-bytes_to_registers (high ∷ []) = refl
length-bytes_to_registers (high ∷ low ∷ rest) = omega (arith, length-bytes_to_registers rest)

register_bytes-word :
    (count high low : ℕ)
    → 1 < count
    → IsByte high
    → IsByte low
    → register_bytes count (high * 256 + low) ≡ high ∷ low ∷ []
register_bytes-word count high low h hh hl = ground arith

unpack-words :
    (count : ℕ) (bytes : List ℕ)
    → 1 < count
    → length bytes % 2 ≡ 0
    → All IsByte bytes
    → unpack count (bytes_to_registers bytes) ≡ bytes
unfolding bytes_to_registers unpack
unpack-words count [] h e p = refl
unpack-words count (high ∷ []) h e p = absurd (omega arith)
unpack-words count (high ∷ low ∷ rest) h e (hh, (hl, hr)) =
    rw (register_bytes-word count high low h hh hl)
      (ap (λ (t : List ℕ). high ∷ low ∷ t) (unpack-words count rest h (omega arith) hr))

unpack-single :
    (bytes : List ℕ)
    → length bytes ≡ 1
    → All IsByte bytes
    → unpack 1 (bytes_to_registers bytes) ≡ bytes
unfolding bytes_to_registers unpack
unpack-single [] e p = refl
unpack-single (b ∷ []) e p = let h : b % 256 ≡ b = omega arith in ap (λ (t : ℕ). t ∷ []) h
unpack-single (b ∷ c ∷ rest) e p = absurd (omega arith)

unpack-bytes_to_registers :
    (count : ℕ) (bytes : List ℕ)
    → count ≡ length bytes
    → (count ≡ 1) ⊎ (1 < count) × (count % 2 ≡ 0)
    → All IsByte bytes
    → unpack count (bytes_to_registers bytes) ≡ bytes
unpack-bytes_to_registers count bytes n (inl one) p = rw one (unpack-single bytes (omega arith) p)
unpack-bytes_to_registers count bytes n (inr (more, even)) p =
    unpack-words count bytes more (omega arith) p

take-length : (bytes : List ℕ) → take (length bytes) bytes ≡ bytes
take-length [] = refl
take-length (b ∷ bytes) = ap (λ (t : List ℕ). b ∷ t) (take-length bytes)

pub byte_count_lem : (data_type : DataType) → bytes_len data_type ≡ some (byte_count data_type)
unfolding bytes_len byte_count
byte_count_lem u16 = refl
byte_count_lem _ = refl

pub byte_count-required :
    (data_type : DataType) → (byte_count data_type + 1) / 2 ≡ required_registers data_type
unfolding byte_count required_registers
byte_count-required u16 = refl
byte_count-required _ = refl

byte_count_shape :
    (data_type : DataType)
    → (byte_count data_type ≡ 1) ⊎ (1 < byte_count data_type) × (byte_count data_type % 2 ≡ 0)
unfolding byte_count
byte_count_shape bool = inl refl
byte_count_shape _ = inr (omega arith, refl)

-- Where the registers of a field hold the packed bytes of its type, these bytes are extracted.
pub extract_bytes-slice :
    (data_type : DataType) (regs bytes : List ℕ) (offset : ℕ)
    → byte_count data_type ≡ length bytes
    → All IsByte bytes
    → offset + required_registers data_type ≤ length regs
    → slice regs offset (required_registers data_type) ≡ bytes_to_registers bytes
    → extract_bytes_from_registers regs offset (byte_count data_type) ≡ bytes
unfolding extract_bytes_from_registers
extract_bytes-slice data_type regs bytes offset n h fits e =
    let count = byte_count data_type in
    let whole : unpack count (bytes_to_registers bytes) ≡ bytes =
      unpack-bytes_to_registers count bytes n (byte_count_shape data_type) h in
    let loop =
      extract_loop-unpack regs count offset (required_registers data_type) fits
      ∙ ap (λ (t : List ℕ). unpack count t) e
      ∙ whole in
    rw (byte_count-required data_type, loop) (rw n (take-length bytes))
