-- ===== src/Protocol/Fields.antt =====
-- The little-endian fields of a header, written and read.
use native.Mathlib.Nat.{
  div-add-mod, mul-add-mod_self_left, mod-eq_of_lt, mod-lt, one-le-pow, pow-le-pow_right,
}
use native.Mathlib.Numerals.{towards_suc}
use v4l2_capture.Prelude.{ℕ, zero, suc, ◌+◌, ◌*◌, ◌/◌, ◌%◌, ◌^◌, ◌≤◌, ◌<◌, ◌≡◌, sym, ap, ◌∙◌, arith}
use v4l2_capture.Prelude.{bit_and, bit_or, get_or}
use v4l2_capture.Prelude.Bits.{bit_or-fields, bit_and-mask}
use v4l2_capture.Protocol.{WireHeader, read_u16_le, read_loop, read_u32_le, read_u64_le}

-- Byte `i` of a number, as the writers compute it.
abbrev pub byte_of : ℕ → ℕ → ℕ
byte_of v i = bit_and (v / 2 ^ (i * 8)) 0xff

-- The `n` bytes from `offset + i` on are bytes `i`, `i + 1`, … of the number.
abbrev pub Holds : ℕ → ℕ → WireHeader → ℕ → ℕ → Type 0
Holds zero i bytes offset v = Unit {0}
Holds (suc n) i bytes offset v =
    (get_or bytes (offset + i) 0 ≡ byte_of v i) × Holds n (i + 1) bytes offset v

pow-add_eight : (i : ℕ) → 2 ^ ((i + 1) * 8) ≡ 256 * 2 ^ (i * 8)
pow-add_eight i = ap (λ (k : ℕ). 2 ^ k) (omega arith) ∙ eight (i * 8)
  where
    eight : (k : ℕ) → 2 ^ (k + 8) ≡ 256 * 2 ^ k
    eight k = simp towards_suc (omega arith)

mod_byte : (v p : ℕ) → 0 < p → v % (256 * p) ≡ v % p + v / p % 256 * p
mod_byte v p h =
    ap (λ (t : ℕ). t % (256 * p)) split
    ∙ mul-add-mod_self_left (256 * p) (v / p / 256) low
    ∙ mod-eq_of_lt small
  where
    low : ℕ
    low = v % p + v / p % 256 * p

    split : v ≡ 256 * p * (v / p / 256) + low
    split = omega (arith, div-add-mod v p, ap (λ (t : ℕ). t * p) (div-add-mod (v / p) 256))

    small : low < 256 * p
    small = grind (arith, mod-lt v h, mod-lt (v / p) {m = 256} (omega arith))

read_round :
    (w i : ℕ) (bytes : WireHeader) (offset v value : ℕ)
    → (i + 1) * 8 ≤ w
    → get_or bytes (offset + i) 0 ≡ byte_of v i
    → value ≡ v % 2 ^ (i * 8)
    → bit_or value (get_or bytes (offset + i) 0 * 2 ^ (i * 8) % 2 ^ w) ≡ v % 2 ^ ((i + 1) * 8)
read_round w i bytes offset v value h b e =
    rw (b, bit_and-mask 8 (v / p))
      (ap (bit_or value) (mod-eq_of_lt fits)
        ∙ bit_or-fields (i * 8) value (v / p % 256) (omega (arith, e, mod-lt v pos))
        ∙ ap (λ (t : ℕ). t + v / p % 256 * p) e
        ∙ sym (ap (λ (t : ℕ). v % t) (pow-add_eight i) ∙ mod_byte v p pos))
  where
    p : ℕ
    p = 2 ^ (i * 8)

    pos : 0 < p
    pos = one-le-pow (i * 8) 2 (omega arith)

    byte : v / p % 256 ≤ 255
    byte = omega arith

    room : 256 * p ≤ 2 ^ w
    room = omega (arith, pow-add_eight i, pow-le-pow_right {n = 2} (omega arith) h)

    fits : v / p % 256 * p < 2 ^ w
    fits = grind (arith, byte, room, pos)

read_loop-Holds :
    (n w i : ℕ) (bytes : WireHeader) (offset v value : ℕ)
    → (i + n) * 8 ≤ w
    → Holds n i bytes offset v
    → value ≡ v % 2 ^ (i * 8)
    → read_loop n w i bytes offset value ≡ v % 2 ^ ((i + n) * 8)
unfolding read_loop
read_loop-Holds zero w i bytes offset v value h held e = e ∙ ap (λ (k : ℕ). v % 2 ^ k) (omega arith)
read_loop-Holds (suc n) w i bytes offset v value h (b, held) e =
    read_loop-Holds n w (i + 1) bytes offset v next (omega arith) held
      (read_round w i bytes offset v value (omega arith) b e)
    ∙ ap (λ (k : ℕ). v % 2 ^ k) (omega arith)
  where
    next : ℕ
    next = bit_or value (get_or bytes (offset + i) 0 * 2 ^ (i * 8) % 2 ^ w)

-- A number of the width of the field is read back from its bytes.
pub read_u16_le_bytes :
    (bytes : WireHeader) (offset v : ℕ)
    → v < 2 ^ 16
    → get_or bytes (offset + 0) 0 ≡ bit_and v 0xff
    → get_or bytes (offset + 1) 0 ≡ bit_and (v / 2 ^ 8) 0xff
    → read_u16_le bytes offset ≡ v
unfolding read_u16_le
read_u16_le_bytes bytes offset v h low high =
    rw (low, high, bit_and-mask 8 v, bit_and-mask 8 (v / 2 ^ 8))
      (omega (arith, bit_or-fields 8 (v % 256) (v / 256 % 256) (omega arith)))

pub read_u32_le-Holds :
    (bytes : WireHeader) (offset v : ℕ)
    → v < 2 ^ 32
    → Holds 4 0 bytes offset v
    → read_u32_le bytes offset ≡ v
unfolding read_u32_le
read_u32_le-Holds bytes offset v h held =
    read_loop-Holds 4 32 0 bytes offset v 0 (omega arith) held (omega arith) ∙ mod-eq_of_lt h

pub read_u64_le-Holds :
    (bytes : WireHeader) (offset v : ℕ)
    → v < 2 ^ 64
    → Holds 8 0 bytes offset v
    → read_u64_le bytes offset ≡ v
unfolding read_u64_le
read_u64_le-Holds bytes offset v h held =
    read_loop-Holds 8 64 0 bytes offset v 0 (omega arith) held (omega arith) ∙ mod-eq_of_lt h
