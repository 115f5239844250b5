-- ===== src/Approval/Drift/Itoa.antt =====
-- `itoa` (approval/domain/drift.go) against the reading of a decimal numeral.
use native.Mathlib.Nat.{pow-suc}
use metal_docs.Prelude.{
  ℕ, zero, suc, ◌+◌, ◌-◌, ◌*◌, ◌/◌, ◌%◌, ◌^◌, ◌≤◌, ◌<◌, ◌≡◌, refl, ap, ◌∙◌, some, List, [], ◌∷◌,
  arith, inl, inr,
}
use metal_docs.Prelude.Tests.{leb, leb→le, Bool-cases}
use metal_docs.Prelude.Lists.{length}
use metal_docs.Prelude.Int.{pos, negsuc}
use metal_docs.Approval.Drift.{itoa_from, write_sign, itoa}

-- The number that a text of decimal digits stands for, read from the left.
abbrev pub read_from : ℕ → List ℕ → ℕ
read_from v [] = v
read_from v (c ∷ cs) = read_from (v * 10 + (c - b'0')) cs

tenth_fits : (room n : ℕ) → n < 10 ^ suc room → n / 10 < 10 ^ room
tenth_fits room n h = omega (arith, pow-suc 10 room)

room_left : (room n : ℕ) → 10 ≤ n → n < 10 ^ suc room → 0 < room
room_left zero n big h = absurd (omega arith)
room_left (suc room) n big h = omega arith

digit_read : (n : ℕ) (text : List ℕ) → read_from 0 ((b'0' + n) ∷ text) ≡ read_from n text
digit_read n text = ap (λ v. read_from v text) (omega arith)

last_digit_read :
    (n : ℕ) (text : List ℕ) → read_from (n / 10) ((b'0' + n % 10) ∷ text) ≡ read_from n text
last_digit_read n text = ap (λ v. read_from v text) (omega arith)

-- With room for its digits a number is written, the text grows by at most the room, and it reads
-- back as that number followed by the text that was there.
itoa_from_reads :
    (room n : ℕ) (text : List ℕ)
    → n < 10 ^ room
    → 0 < room
    → (out : List ℕ) × (itoa_from room n text ≡ some out)
      × (read_from 0 out ≡ read_from n text)
      × (length out ≤ room + length text)
unfolding itoa_from
itoa_from_reads zero n text h p = absurd (omega arith)
itoa_from_reads (suc room) n text h p = elim (Bool-cases (leb 10 n)) [
  | inl big ↦
      let (out, written, same, short) =
        itoa_from_reads room (n / 10) ((b'0' + n % 10) ∷ text) (tenth_fits room n h)
          (room_left room n (leb→le 10 n big) h) in
      (out, rw big written, same ∙ last_digit_read n text, omega arith)
  | inr small ↦ ((b'0' + n) ∷ text, rw small, digit_read n text, omega arith)
]

-- The magnitude of an `int` of 64 bits has at most 19 digits.
written_small :
    (n : ℕ)
    → n < 2 ^ 63
    → (out : List ℕ) × (itoa_from 19 n [] ≡ some out) × (read_from 0 out ≡ n) × (length out ≤ 19)
written_small n h =
    let (out, written, same, short) = itoa_from_reads 19 n [] (omega arith) (omega arith) in
    (out, written, same, omega arith)

-- More room changes nothing of what is written.
itoa_from_more_room :
    (room n : ℕ) (text out : List ℕ)
    → itoa_from room n text ≡ some out
    → itoa_from (suc room) n text ≡ some out
unfolding itoa_from
itoa_from_more_room zero n text out h = cc
itoa_from_more_room (suc room) n text out h =
    ground (arith, itoa_from_more_room room (n / 10) ((b'0' + n % 10) ∷ text) out)

-- On every negative `int` of 64 bits but the smallest, whose magnitude is not an `int`, `itoa` stays
-- inside its buffer and returns a minus sign and digits that read back as the magnitude.
pub itoa_reads_back_negative :
    (n : ℕ)
    → suc n < 2 ^ 63
    → (digits : List ℕ) × (itoa (negsuc n) ≡ some (b'-' ∷ digits)) × (read_from 0 digits ≡ suc n)
unfolding itoa write_sign
itoa_reads_back_negative n h =
    let (out, written, same, short) = written_small (suc n) h in
    (out, rw (itoa_from_more_room 19 (suc n) [] out written, itoa) (ground (arith, short)), same)

-- On every `int` of 64 bits from 0 up, `itoa` stays inside its buffer, and the text that it returns
-- reads back as the number.
pub itoa_reads_back :
    (n : ℕ) → n < 2 ^ 63 → (out : List ℕ) × (itoa (pos n) ≡ some out) × (read_from 0 out ≡ n)
unfolding itoa
itoa_reads_back zero h = (b'0' ∷ [], refl, refl)
itoa_reads_back (suc n) h =
    let (out, written, same, short) = written_small (suc n) h in
    (out, itoa_from_more_room 19 (suc n) [] out written, same)
