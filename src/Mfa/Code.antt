-- ===== src/Mfa/Code.antt =====
-- mfa.go: the digits of a code.
use identity_hub.Base.{
  Bytes, [], arith, length, refl, some, suc, true, zero, ℕ, ◌%◌, ◌*◌, ◌+◌, ◌-◌, ◌/◌, ◌<◌, ◌^◌, ◌∙◌,
  ◌∷◌, ◌≡◌, ◌≤◌,
}
use identity_hub.World.{External, World, ok, ◌>>=◌}
use identity_hub.Mfa.{
  VerifyInput, all_digits, code_digits, code_space, decode_verify_input, format_code, generate_code,
  int64_digits, valid_code, write_decimal, zeros_before,
}

-- The number that a text of decimal digits stands for, after the digits of `n`.
abbrev pub read_after : ℕ → Bytes → ℕ
read_after n [] = n
read_after n (c ∷ cs) = read_after (n * 10 + (c - b'0')) cs

read-write_decimal :
    (fuel n : ℕ) (written : Bytes)
    → n < 10 ^ fuel
    → read_after 0 (write_decimal fuel n written) ≡ read_after n written
unfolding write_decimal
read-write_decimal zero n written h = ground arith
read-write_decimal (suc fuel) n written h =
    ground (arith, read-write_decimal fuel (n / 10) ((b'0' + n % 10) ∷ written))

all_digits-write_decimal :
    (fuel n : ℕ) (written : Bytes)
    → all_digits written ≡ true
    → all_digits (write_decimal fuel n written) ≡ true
unfolding write_decimal
all_digits-write_decimal zero n written h = h
all_digits-write_decimal (suc fuel) n written h =
    ground (arith, all_digits-write_decimal fuel (n / 10) ((b'0' + n % 10) ∷ written))

length-write_decimal :
    (fuel k n : ℕ) (written : Bytes)
    → n < 10 ^ suc k
    → length (write_decimal fuel n written) ≤ suc k + length written
unfolding write_decimal
length-write_decimal zero k n written h = omega arith
length-write_decimal (suc fuel) zero n written h = ground arith
length-write_decimal (suc fuel) (suc k) n written h =
    ground (arith, length-write_decimal fuel k (n / 10) ((b'0' + n % 10) ∷ written))

length-zeros_before :
    (k : ℕ) (written : Bytes) → length (zeros_before k written) ≡ k + length written
length-zeros_before zero written = omega arith
length-zeros_before (suc k) written = ground (arith, length-zeros_before k written)

read-zeros_before :
    (k : ℕ) (written : Bytes) → read_after 0 (zeros_before k written) ≡ read_after 0 written
read-zeros_before zero written = refl
read-zeros_before (suc k) written = read-zeros_before k written

all_digits-zeros_before :
    (k : ℕ) (written : Bytes)
    → all_digits written ≡ true
    → all_digits (zeros_before k written) ≡ true
all_digits-zeros_before zero written h = h
all_digits-zeros_before (suc k) written h = all_digits-zeros_before k written h

-- The text of a number of the code space has six bytes, the leading zeros among them, and read as a
-- decimal number it is that number.
pub format_code_lem :
    (n : ℕ)
    → n < code_space
    → (length (format_code n) ≡ code_digits) × (read_after 0 (format_code n) ≡ n)
unfolding format_code
format_code_lem n h =
    let written = write_decimal int64_digits n [] in
    (
      ground (
        arith,
        length-zeros_before (code_digits - length written) written,
        length-write_decimal int64_digits 5 n [],
      ),
      read-zeros_before (code_digits - length written) written
          ∙ read-write_decimal int64_digits n [] (omega arith),
    )

format_code-valid : (n : ℕ) → n < code_space → valid_code (format_code n) ≡ true
unfolding valid_code format_code
format_code-valid n h =
    let written = write_decimal int64_digits n [] in
    ground (
      arith,
      (format_code_lem n h).0,
      all_digits-zeros_before (code_digits - length written) written
          (all_digits-write_decimal int64_digits n [] refl),
    )

-- Where rand.Int keeps its bound, every code that generateCode returns passes the checks of
-- decodeVerifyInput in a request whose token decodes.
pub generated_code_accepted :
    (ext : External) (w w' : World) (input : VerifyInput) (raw : Bytes)
    → ((b : Bytes) → ext.rand_int code_space b < code_space)
    → generate_code ext w ≡ (ok input.code, w')
    → ext.decode input.token ≡ some raw
    → decode_verify_input ext input ≡ ok raw
unfolding decode_verify_input ◌>>=◌
generated_code_accepted ext w w' input raw bound h d =
    let number = ext.rand_int code_space (w.env.random w.tick) in
    ground (arith, format_code-valid number (bound (w.env.random w.tick)))
