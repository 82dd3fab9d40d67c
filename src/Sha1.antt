-- ===== src/Sha1.antt =====
-- src/artifact.rs: `sha1`, on words of 32 bits. A length is taken modulo 2 ^ 64 bits.
pub mod Digest
mod Tests
use Prim.Native.Nat.{bit_and, bit_or, bit_xor}
use opensaml_rs.Prelude.{
  ℕ, zero, suc, ◌+◌, ◌-◌, ◌*◌, ◌/◌, ◌%◌, ◌≡◌, refl, List, [], ◌∷◌, ◌++◌, Text, ascii, length,
  get_elem?, take, drop, leb, ltb, Option, none, some, if◌then◌else◌, Bool, true, false,
}

abbrev pub word_size : ℕ
word_size = 4294967296

abbrev wrapping_add : ℕ → ℕ → ℕ
wrapping_add a b = (a + b) % word_size

-- `u32::rotate_left(k)`, where `factor` is 2 ^ k.
abbrev rotate_left : ℕ → ℕ → ℕ
rotate_left factor w = (w * factor) % word_size + w / (word_size / factor)

abbrev complement : ℕ → ℕ
complement w = 4294967295 - w

abbrev word_at : List ℕ → ℕ → ℕ
word_at words i = elim (get_elem? words i) [ none ↦ 0 | some w ↦ w ]

-- `u32::to_be_bytes`
abbrev pub be_bytes : ℕ → Text
be_bytes w = (w / 16777216) % 256 ∷ (w / 65536) % 256 ∷ (w / 256) % 256 ∷ w % 256 ∷ []

unfoldable pub zeros : ℕ → Text
zeros zero = []
zeros (suc n) = 0 ∷ zeros n

-- `message`: the input, 0x80, zeros up to 56 modulo 64, and the length in bits.
unfoldable pub padded : Text → Text
padded input =
    let bits = (length input * 8) % 18446744073709551616 in
    input
    ++ (128 ∷ zeros ((119 - length input % 64) % 64))
    ++ (be_bytes (bits / word_size) ++ be_bytes (bits % word_size))

-- The first sixteen words of a chunk.
unfoldable pub chunk_words : ℕ → Text → List ℕ
chunk_words zero bytes = []
chunk_words (suc n) (a ∷ b ∷ c ∷ d ∷ rest) =
    (a * 16777216 + b * 65536 + c * 256 + d) ∷ chunk_words n rest
chunk_words (suc n) _ = []

-- The words 16 to 79: `n` more, of `words`, which stand in reverse.
unfoldable pub extend : ℕ → List ℕ → List ℕ
extend zero words = words
extend (suc n) words = extend n (
    rotate_left 2 (
      bit_xor (bit_xor (word_at words 2) (word_at words 7))
        (bit_xor (word_at words 13) (word_at words 15)))
    ∷ words)

pub record Registers : Type 0 where
  pub a : ℕ
  pub b : ℕ
  pub c : ℕ
  pub d : ℕ
  pub e : ℕ

abbrev choose : Registers → ℕ
choose r = bit_or (bit_and r.b r.c) (bit_and (complement r.b) r.d)

abbrev parity : Registers → ℕ
parity r = bit_xor (bit_xor r.b r.c) r.d

abbrev majority : Registers → ℕ
majority r = bit_or (bit_or (bit_and r.b r.c) (bit_and r.b r.d)) (bit_and r.c r.d)

-- `(f, constant)` of round `index`.
abbrev mix : ℕ → Registers → ℕ × ℕ
mix index r =
    if ltb index 20
    then (choose r, 1518500249)
    else if ltb index 40
    then (parity r, 1859775393)
    else if ltb index 60
    then (majority r, 2400959708)
    else (parity r, 3395469782)

unfoldable pub round : ℕ → ℕ → Registers → Registers
round index word r =
    let (f, constant) = mix index r in
    record {
      a =
          wrapping_add
            (wrapping_add (wrapping_add (wrapping_add (rotate_left 32 r.a) f) r.e) constant) word;
      b = r.a;
      c = rotate_left 1073741824 r.b;
      d = r.c;
      e = r.d;
    }

unfoldable pub rounds : ℕ → List ℕ → Registers → Registers
rounds index [] r = r
rounds index (word ∷ words) r = rounds (suc index) words (round index word r)

unfoldable pub reverse_onto : List ℕ → List ℕ → List ℕ
reverse_onto acc [] = acc
reverse_onto acc (w ∷ words) = reverse_onto (w ∷ acc) words

unfoldable pub absorb : Registers → Text → Registers
absorb hash chunk =
    let words = reverse_onto [] (extend 64 (reverse_onto [] (chunk_words 16 chunk))) in
    let r = rounds 0 words hash in
    record {
      a = wrapping_add hash.a r.a;
      b = wrapping_add hash.b r.b;
      c = wrapping_add hash.c r.c;
      d = wrapping_add hash.d r.d;
      e = wrapping_add hash.e r.e;
    }

-- The loop over the chunks of 64 bytes: there are no more of them than bytes.
unfoldable pub absorb_all : ℕ → Registers → Text → Registers
absorb_all zero hash message = hash
absorb_all (suc fuel) hash message =
    if ltb (length message) 64
    then hash
    else absorb_all fuel (absorb hash (take 64 message)) (drop 64 message)

abbrev pub initial : Registers
initial = record { a = 1732584193; b = 4023233417; c = 2562383102; d = 271733878; e = 3285377520 }

unfoldable pub sha1 : Text → Text
sha1 input =
    let message = padded input in
    let hash = absorb_all (length message) initial message in
    be_bytes hash.a ++ be_bytes hash.b ++ be_bytes hash.c ++ be_bytes hash.d ++ be_bytes hash.e
