-- ===== src/Transport/Checksum.antt =====
-- reliable-transport-protocol, client.c and server.c: `calculate_file_checksum`, whose callers give it
-- an array of nine bytes.
use native.Mathlib.Nat.{pow-suc, pow-succ', mul-le-mul_right, pow-le-pow_right}
use systems_suite.Prelude.{
  ℕ, zero, suc, ◌+◌, ◌*◌, ◌/◌, ◌%◌, ◌^◌, ◌≤◌, ◌<◌, ◌≡◌, refl, true, false, List, [], ◌∷◌, ◌++◌,
  arith, ◌==◌, length, length-append, All, Bool-cases, inl, inr,
}
use systems_suite.Transport.Packet.{u64}

-- `((checksum << 5) + checksum) + ch` on 64 bits.
unfoldable pub add_byte : ℕ → ℕ → ℕ
add_byte checksum ch = u64 (u64 (u64 (checksum * 32) + checksum) + ch)

unfoldable pub checksum_from : ℕ → List ℕ → ℕ
unfolding add_byte
checksum_from checksum [] = checksum
checksum_from checksum (ch ∷ chs) = checksum_from (add_byte checksum ch) chs

-- The digits of `%lx`, at least `least` of them; a number of 64 bits has at most sixteen.
unfoldable pub hex_digits : ℕ → ℕ → ℕ → List ℕ
hex_digits zero least n = []
hex_digits (suc fuel) (suc least) n = hex_digits fuel least (n / 16) ++ n % 16 ∷ []
hex_digits (suc fuel) zero n = elim (n == 0) [
  | true ↦ []
  | false ↦ hex_digits fuel 0 (n / 16) ++ n % 16 ∷ []
]

-- What `sprintf` writes for `%08lx`, before its NUL.
unfoldable pub checksum_text : List ℕ → List ℕ
unfolding checksum_from
checksum_text file = hex_digits 16 8 (checksum_from 0 file)

abbrev pub checksum_room : ℕ
checksum_room = 9

no_wrap :
    (c ch P : ℕ) → 1 ≤ P → ch < 256 → (c + 8) * (33 * P) ≤ 2 ^ 64 → add_byte c ch ≡ c * 33 + ch
unfolding add_byte
no_wrap c ch P one byte fits = let small : (c + 8) * 33 ≤ 2 ^ 64 = grind arith in omega arith

pow_pos : (n : ℕ) → 1 ≤ 33 ^ n
pow_pos zero = omega arith
pow_pos (suc n) = rw (pow-suc) (omega (arith, pow_pos n))

grown : (c ch P : ℕ) → ch < 256 → (c * 33 + ch + 8) * P ≤ (c + 8) * (33 * P)
grown c ch P byte =
    let h : c * 33 + ch + 8 ≤ (c + 8) * 33 = omega arith in omega (arith, mul-le-mul_right P h)

-- While nothing overflows, a checksum is at least what its first byte grows to.
checksum_grows :
    (c : ℕ) (file : List ℕ)
    → All (λ ch. ch < 256) file
    → (c + 8) * 33 ^ length file ≤ 2 ^ 64
    → c * 33 ^ length file ≤ checksum_from c file
unfolding checksum_from
checksum_grows c [] bytes fits = omega arith
checksum_grows c (ch ∷ chs) bytes fits =
    let P = 33 ^ length chs in
    let P' : 33 ^ length (ch ∷ chs) ≡ 33 * P = pow-succ' 33 (length chs) in
    let room : (c + 8) * (33 * P) ≤ 2 ^ 64 = (rw P' at fits) in
    let sum : add_byte c ch ≡ c * 33 + ch = no_wrap c ch P (pow_pos (length chs)) bytes.0 room in
    let ih = checksum_grows (c * 33 + ch) chs bytes.1 (omega (arith, grown c ch P bytes.0)) in
    rw (P', sum) (omega (arith, ih))

-- A number of no more than `least` digits is padded, any other is longer.
digits_exact :
    (fuel least n : ℕ) → least ≤ fuel → n < 16 ^ least → length (hex_digits fuel least n) ≡ least
unfolding hex_digits
digits_exact zero zero n h small = refl
digits_exact zero (suc least) n h small = elim h [ ]
digits_exact (suc fuel) zero n h small = let e : n ≡ 0 = omega arith in rw e refl
digits_exact (suc fuel) (suc least) n h small =
    let P = 16 ^ least in
    let P' : 16 ^ suc least ≡ 16 * P = pow-succ' 16 least in
    let small' : n < 16 * P = (rw P' at small) in
    omega (
      arith,
      length-append (hex_digits fuel least (n / 16)) (n % 16 ∷ []),
      digits_exact fuel least (n / 16) (omega arith) (omega arith),
    )

digits_more :
    (fuel least n : ℕ) → least < fuel → 16 ^ least ≤ n → least < length (hex_digits fuel least n)
unfolding hex_digits
digits_more zero least n h large = elim h [ ]
digits_more (suc fuel) zero n h large = elim (Bool-cases (n == 0)) [
  | inl none ↦ absurd (ground arith)
  | inr some ↦
      rw (some, length) (omega (arith, length-append (hex_digits fuel 0 (n / 16)) (n % 16 ∷ [])))
]
digits_more (suc fuel) (suc least) n h large =
    let P = 16 ^ least in
    let P' : 16 ^ suc least ≡ 16 * P = pow-succ' 16 least in
    let large' : 16 * P ≤ n = (rw P' at large) in
    omega (
      arith,
      length-append (hex_digits fuel least (n / 16)) (n % 16 ∷ []),
      digits_more fuel least (n / 16) (omega arith) (omega arith),
    )

eight_bytes :
    (first : ℕ) (rest : List ℕ)
    → All (λ ch. ch < 256) (first ∷ rest)
    → 1 ≤ first
    → 7 ≤ length rest
    → length rest ≤ 11
    → 2 ^ 32 ≤ checksum_from 0 (first ∷ rest)
unfolding checksum_from add_byte
eight_bytes first rest bytes some_bit long short =
    let e : add_byte 0 first ≡ first = (let b = bytes.0 in omega arith) in
    let low : 33 ^ 7 ≤ 33 ^ length rest = pow-le-pow_right (omega arith) long in
    let high : 33 ^ length rest ≤ 33 ^ 11 = pow-le-pow_right (omega arith) short in
    let few : (first + 8) * 33 ^ length rest ≤ 263 * 33 ^ length rest =
      (let b = bytes.0 in mul-le-mul_right (33 ^ length rest) (omega arith)) in
    let room : (first + 8) * 33 ^ length rest ≤ 2 ^ 64 = omega (arith, few, high) in
    rw e (
      omega (
        arith,
        low,
        high,
        checksum_grows first rest bytes.1 room,
        mul-le-mul_right (33 ^ length rest) some_bit,
      ))

-- The text of a file's checksum, with its NUL, is longer than the nine bytes of its array if the
-- file has 8 to 12 bytes, the first not 0.
pub checksum_overflows :
    (first : ℕ) (rest : List ℕ)
    → All (λ ch. ch < 256) (first ∷ rest)
    → 1 ≤ first
    → 7 ≤ length rest
    → length rest ≤ 11
    → checksum_room < length (checksum_text (first ∷ rest)) + 1
unfolding checksum_text
checksum_overflows first rest bytes some_bit long short = omega (
  arith,
  digits_more 16 8 (checksum_from 0 (first ∷ rest)) (omega arith)
      (eight_bytes first rest bytes some_bit long short),
)
