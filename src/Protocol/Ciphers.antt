-- ===== src/Protocol/Ciphers.antt =====
-- The XOR of passwords and user names (protocol.py).
use Prim.Native.Nat.{bit_xor}
use pytvt.Prelude.{
  ℕ, zero, suc, ◌+◌, ◌*◌, ◌-◌, ◌++◌, ◌∙◌, ap, ◌≤◌, ◌<◌, ◌%◌, ◌≡◌, refl, Bool, true, false, ◌&&◌,
  ◌||◌, some, [], ◌∷◌, ltb, ◌==◌, if◌then◌else◌, length, All, All-append, ◌⊎◌, ◌/◌, arith,
  Bool-cases, inl, inr, ◌≢◌,
}
use pytvt.Prelude.Bytes.{Bytes, take}
use pytvt.Protocol.{
  InitInfo, zeros, ljust, repeated, padded, xor_bytes, xor_key_32, encrypt_password, xor_username,
  encrypt_username_head, byte_at, decimal, decimal_fuel,
}
use mathlib.Core.Path.{ap₂}
use pytvt.Protocol.Sizes.{length-padded, length-xor_key_32, length-encrypt_password}

-- Whether a test holds up to a bound, the bound included.
holds_to : (ℕ → Bool) → ℕ → Bool
holds_to p zero = p zero
holds_to p (suc bound) = let smaller = holds_to p bound in if p (suc bound) then smaller else false

holds_to_elim : (p : ℕ → Bool) (bound i : ℕ) → i ≤ bound → holds_to p bound ≡ true → p i ≡ true
unfolding holds_to
holds_to_elim p zero zero below e = e
holds_to_elim p zero (suc i) below e = absurd (omega arith)
holds_to_elim p (suc bound) i below e = elim (Bool-cases (i == suc bound)) [
  | inl top ↦ ground arith
  | inr lower ↦ ground (arith, holds_to_elim p bound i)
]

-- Two bytes under XOR: a byte again, the first byte under the second once more, and zero only for
-- equal bytes.
abbrev xor_row : ℕ → ℕ → Bool
xor_row a k =
    bit_xor (bit_xor a k) k == a
    && (ltb (bit_xor a k) 256 && (if bit_xor a k == 0 then a == k else true))

xor_rows : ℕ → Bool
unfolding holds_to
xor_rows a = holds_to (xor_row a) 255

xor_rows_hold : holds_to xor_rows 255 ≡ true
unfolding holds_to xor_rows
xor_rows_hold = refl

xor_row-true : (a k : ℕ) → a < 256 → k < 256 → xor_row a k ≡ true
unfolding xor_rows
xor_row-true a k ha hk =
    holds_to_elim (xor_row a) 255 k (omega arith)
      (holds_to_elim xor_rows 255 a (omega arith) xor_rows_hold)

bit_xor_twice : (a k : ℕ) → a < 256 → k < 256 → bit_xor (bit_xor a k) k ≡ a
bit_xor_twice a k ha hk = ground (arith, xor_row-true a k ha hk)

bit_xor-ne_zero : (a k : ℕ) → a < 256 → k < 256 → a ≢ k → bit_xor a k ≢ 0
bit_xor-ne_zero a k ha hk ne = ground (arith, xor_row-true a k ha hk)

-- `byte_at` is 0 past the end, as the padding is.
byte_at-xor_bytes :
    (i : ℕ) (xs ys : Bytes)
    → i < length xs
    → i < length ys
    → byte_at i (xor_bytes xs ys) ≡ bit_xor (byte_at i xs) (byte_at i ys)
unfolding xor_bytes
byte_at-xor_bytes i [] ys h k = absurd (omega arith)
byte_at-xor_bytes i (x ∷ xs) [] h k = absurd (omega arith)
byte_at-xor_bytes zero (x ∷ xs) (y ∷ ys) h k = refl
byte_at-xor_bytes (suc i) (x ∷ xs) (y ∷ ys) h k =
    byte_at-xor_bytes i xs ys (omega arith) (omega arith)

byte_at-take : (i n : ℕ) (bs : Bytes) → i < n → byte_at i (take n bs) ≡ byte_at i bs
byte_at-take i zero bs h = absurd (omega arith)
byte_at-take zero (suc n) [] h = refl
byte_at-take (suc i) (suc n) [] h = refl
byte_at-take zero (suc n) (b ∷ bs) h = refl
byte_at-take (suc i) (suc n) (b ∷ bs) h = byte_at-take i n bs (omega arith)

byte_at-zeros : (i n : ℕ) → byte_at i (zeros n) ≡ 0
byte_at-zeros zero zero = refl
byte_at-zeros (suc i) zero = refl
byte_at-zeros zero (suc n) = refl
byte_at-zeros (suc i) (suc n) = byte_at-zeros i n

byte_at-ljust : (i n : ℕ) (bs : Bytes) → byte_at i (bs ++ zeros n) ≡ byte_at i bs
byte_at-ljust zero n [] = byte_at-zeros 0 n
byte_at-ljust (suc i) n [] = byte_at-zeros (suc i) n
byte_at-ljust zero n (b ∷ bs) = refl
byte_at-ljust (suc i) n (b ∷ bs) = byte_at-ljust i n bs

byte_at-padded : (i n : ℕ) (bs : Bytes) → i < n → byte_at i (padded n bs) ≡ byte_at i bs
unfolding padded
byte_at-padded i n bs h = byte_at-take i n (ljust n bs) h ∙ byte_at-ljust i (n - length bs) bs

byte_at-head : (i : ℕ) (xs ys : Bytes) → i < length xs → byte_at i (xs ++ ys) ≡ byte_at i xs
byte_at-head i [] ys h = absurd (omega arith)
byte_at-head zero (x ∷ xs) ys h = refl
byte_at-head (suc i) (x ∷ xs) ys h = byte_at-head i xs ys (omega arith)

byte_at-tail : (i : ℕ) (xs ys : Bytes) → byte_at (length xs + i) (xs ++ ys) ≡ byte_at i ys
byte_at-tail i [] ys = ap (λ j. byte_at j ys) (omega arith)
byte_at-tail i (x ∷ xs) ys =
    let shift : length (x ∷ xs) + i ≡ suc (length xs + i) = omega arith in
    ap (λ j. byte_at j (x ∷ (xs ++ ys))) shift ∙ byte_at-tail i xs ys

byte_at-repeated :
    (n i : ℕ) (key : Bytes)
    → length key ≡ 4
    → i < n * 4
    → byte_at i (repeated n key) ≡ byte_at (i % 4) key
byte_at-repeated zero i key e h = absurd (omega arith)
byte_at-repeated (suc n) i key e h = elim (Bool-cases (ltb i 4)) [
  | inl lt ↦
      let small : i < 4 = ground arith in
      let same : i % 4 ≡ i = omega arith in
      rw (same) (byte_at-head i key (repeated n key) (omega arith))
  | inr ge ↦
      let large : 4 ≤ i = ground arith in
      let split : i ≡ length key + (i - 4) = omega arith in
      let same : (i - 4) % 4 ≡ i % 4 = omega arith in
      ap (λ j. byte_at j (key ++ repeated n key)) split
      ∙ byte_at-tail (i - 4) key (repeated n key)
      ∙ byte_at-repeated n (i - 4) key e (omega arith)
      ∙ ap (λ j. byte_at j key) same
]

mode_ne_zero : (n : ℕ) → (n == 1 || n == 2) ≡ true → (n == 0) ≡ false
mode_ne_zero n h = ground arith

if_same : (b : Bool) (xs : Bytes) → (if b then xs else if false then xs else xs) ≡ xs
if_same true xs = refl
if_same false xs = refl

-- An encrypted password has 32 bytes, for a key of four bytes. In the modes 1 and 2 each is the byte
-- of the password at its place, or 0 past the end, under XOR with the byte of the key at its place
-- modulo four; in any other mode it is the byte of the password, or 0.
pub byte_at-encrypt_password :
    (info : InitInfo) (password : Bytes) (i : ℕ)
    → length info.xor_key_4 ≡ 4
    → i < 32
    → (length (encrypt_password password (some info)) ≡ 32)
      × (byte_at i (encrypt_password password (some info)) ≡ (
          if info.login_encrypt == 1 || info.login_encrypt == 2
          then bit_xor (byte_at i password) (byte_at (i % 4) info.xor_key_4)
          else byte_at i password))
unfolding encrypt_password
byte_at-encrypt_password info password i size h = (
  length-encrypt_password password info size,
  elim (Bool-cases (info.login_encrypt == 1 || info.login_encrypt == 2)) [
    | inl e ↦ rw (e) (
        rw (mode_ne_zero info.login_encrypt e) (
          byte_at-xor_bytes i (padded 32 password) (xor_key_32 info.xor_key_4)
            (omega (arith, length-padded 32 password))
            (omega (arith, length-xor_key_32 info.xor_key_4 size))
          ∙ ap₂ bit_xor (byte_at-padded i 32 password h) (
              byte_at-take i 32 (repeated 8 info.xor_key_4) h
              ∙ byte_at-repeated 8 i info.xor_key_4 size (omega arith))))
    | inr e ↦ rw (e) (
        ap (byte_at i) (if_same (info.login_encrypt == 0) (padded 32 password))
        ∙ byte_at-padded i 32 password h)
  ],
)

All-zeros : (P : ℕ → Type 0) → P 0 → (n : ℕ) → All P (zeros n)
All-zeros P z zero = tt
All-zeros P z (suc n) = (z, All-zeros P z n)

All-take : (P : ℕ → Type 0) (n : ℕ) (bs : Bytes) → All P bs → All P (take n bs)
All-take P zero bs h = tt
All-take P (suc n) [] h = tt
All-take P (suc n) (b ∷ bs) h = (h.0, All-take P n bs h.1)

All-padded : (P : ℕ → Type 0) → P 0 → (n : ℕ) (bs : Bytes) → All P bs → All P (padded n bs)
unfolding padded
All-padded P z n bs h =
    All-take P n (ljust n bs)
      (All-append P bs (zeros (n - length bs)) h (All-zeros P z (n - length bs)))

-- A byte that the cipher of the user names gives back: one that is no digit.
abbrev pub IsUndigit : ℕ → Type 0
IsUndigit b = (b < 256) × ((b < 48) ⊎ (57 < b))

abbrev IsDigit : ℕ → Type 0
IsDigit b = (48 ≤ b) × (b ≤ 57)

All-decimal_fuel : (f n : ℕ) (more : Bytes) → All IsDigit more → All IsDigit (decimal_fuel f n more)
unfolding decimal_fuel
All-decimal_fuel zero n more h = ((omega arith, omega arith), h)
All-decimal_fuel (suc f) n more h = elim (Bool-cases (ltb n 10)) [
  | inl e ↦ rw (e) ((omega arith, ground arith), h)
  | inr e ↦
      rw (e) (All-decimal_fuel f (n / 10) ((48 + n % 10) ∷ more) ((omega arith, omega arith), h))
]

byte_at-IsDigit :
    (key : Bytes) (n : ℕ) → All IsDigit key → (byte_at n key ≡ 0) ⊎ IsDigit (byte_at n key)
byte_at-IsDigit [] zero h = inl refl
byte_at-IsDigit [] (suc n) h = inl refl
byte_at-IsDigit (b ∷ key) zero h = inr h.0
byte_at-IsDigit (b ∷ key) (suc n) h = byte_at-IsDigit key n h.1

xor_letter : ℕ → ℕ → ℕ
xor_letter b k = if b == 0 then 0 else bit_xor b k

xor_letter_twice : (b k : ℕ) → IsUndigit b → (k ≡ 0) ⊎ IsDigit k → xor_letter (xor_letter b k) k ≡ b
unfolding xor_letter
xor_letter_twice b k h d =
    let small : k < 256 = ground arith in
    elim (Bool-cases (b == 0)) [
      | inl e ↦ ground arith
      | inr e ↦
          let other : b ≢ k = ground arith in
          ground (arith, bit_xor_twice b k h.0 small, bit_xor-ne_zero b k h.0 small other)
    ]

xor_username_twice :
    (key : Bytes) (i : ℕ) (bs : Bytes)
    → All IsDigit key
    → All IsUndigit bs
    → xor_username key i (xor_username key i bs) ≡ bs
unfolding xor_username xor_letter
xor_username_twice key i [] d h = refl
xor_username_twice key i (b ∷ bs) d h =
    ap₂ (λ x xs. x ∷ xs)
      (xor_letter_twice b (byte_at (i % length key) key) h.0
        (byte_at-IsDigit key (i % length key) d))
      (xor_username_twice key (suc i) bs d h.1)

-- The cipher of the user names is its own inverse on the padded name, for a name of bytes that are
-- no decimal digits.
pub xor_username-encrypt_username_head :
    (username : Bytes) (nonce_int : ℕ)
    → All IsUndigit username
    → xor_username (decimal nonce_int) 0 (encrypt_username_head username nonce_int)
      ≡ padded 64 username
unfolding encrypt_username_head
xor_username-encrypt_username_head username nonce_int h =
    xor_username_twice (decimal nonce_int) 0 (padded 64 username)
      (All-decimal_fuel nonce_int nonce_int [] tt)
      (All-padded IsUndigit (omega arith, inl (omega arith)) 64 username h)
