-- ===== src/Sha1/Digest.antt =====
-- src/artifact.rs: the form of what `sha1` returns, and the fuel of its loop over the chunks.
use opensaml_rs.Prelude.{
  ℕ, zero, suc, ◌+◌, ◌-◌, ◌*◌, ◌/◌, ◌%◌, ◌<◌, ◌≤◌, ◌≡◌, refl, ap, ◌∙◌, ◌∷◌, ◌++◌, Text, length,
  take, drop, All, ltb, arith, length-append, length-drop, Bool-cases, inl, inr,
}
use opensaml_rs.Sha1.{Registers, absorb, absorb_all, padded, zeros, sha1, be_bytes}

-- The digest is twenty bytes.
pub sha1_bytes : (input : Text) → (length (sha1 input) ≡ 20) × All (λ b. b < 256) (sha1 input)
unfolding sha1
sha1_bytes input = (
  refl,
  (
    omega arith,
    (
      omega arith,
      (
        omega arith,
        (
          omega arith,
          (
            omega arith,
            (
              omega arith,
              (
                omega arith,
                (
                  omega arith,
                  (
                    omega arith,
                    (
                      omega arith,
                      (
                        omega arith,
                        (
                          omega arith,
                          (
                            omega arith,
                            (
                              omega arith,
                              (
                                omega arith,
                                (
                                  omega arith,
                                  (omega arith, (omega arith, (omega arith, (omega arith, tt)))),
                                ),
                              ),
                            ),
                          ),
                        ),
                      ),
                    ),
                  ),
                ),
              ),
            ),
          ),
        ),
      ),
    ),
  ),
)

length-zeros : (n : ℕ) → length (zeros n) ≡ n
unfolding zeros
length-zeros zero = refl
length-zeros (suc n) = ground (arith, length-zeros n)

-- The padded input is a whole number of chunks, and longer than the input by nine bytes at least.
pub length-padded :
    (input : Text) → (length (padded input) % 64 ≡ 0) × (length input + 9 ≤ length (padded input))
unfolding padded
length-padded input =
    let bits : ℕ = length input * 8 % 18446744073709551616 in
    let filler : Text = 128 ∷ zeros ((119 - length input % 64) % 64) in
    let size : Text = be_bytes (bits / 4294967296) ++ be_bytes (bits % 4294967296) in
    let filler_length : length filler ≡ 1 + (119 - length input % 64) % 64 =
      ground (arith, length-zeros ((119 - length input % 64) % 64)) in
    let total : length (input ++ filler ++ size) ≡ length input + length filler + 8 =
      length-append (input ++ filler) size ∙ ap (λ n. n + 8) (length-append input filler) in
    (omega (arith, total, filler_length), omega (arith, total, filler_length))

-- The loop ends by itself: any two amounts of fuel that reach the length give the same digest.
pub absorb_all_enough :
    (fuel other : ℕ) (hash : Registers) (message : Text)
    → length message ≤ fuel
    → length message ≤ other
    → absorb_all fuel hash message ≡ absorb_all other hash message
unfolding absorb_all
absorb_all_enough zero zero hash message h g = refl
absorb_all_enough zero (suc other) hash message h g = ground arith
absorb_all_enough (suc fuel) zero hash message h g = ground arith
absorb_all_enough (suc fuel) (suc other) hash message h g =
    let rest = absorb_all_enough fuel other (absorb hash (take 64 message)) (drop 64 message) in
    elim (Bool-cases (ltb (length message) 64)) [
      | inl short ↦ rw short refl
      | inr long ↦ rw long (
          rest (ground (arith, length-drop 64 message, long))
            (ground (arith, length-drop 64 message, long)))
    ]
