-- ===== src/Word/Bits.antt =====
-- The bits of the word operations at variables, and equality of numbers from their bits.
use Prim.Native.Nat.{digits, min, max, bit_and-bitwise, bit_or-bitwise}
use native.Mathlib.Nat.{
  pow-suc, div-div-eq-div-mul, mod-add-div', add-mul-mod_self_right, mod-eq_of_lt, mod-lt,
  one-le-pow,
}
use type_ii_hypervisor_code.Common.{
  ℕ, zero, suc, ◌+◌, ◌-◌, ◌*◌, ◌/◌, ◌%◌, ◌^◌, ◌≤◌, ◌<◌, bit_and, bit_or, ◌≡◌, refl, ap, sym, ◌∙◌,
  false, not, ◌&&◌, ◌||◌, arith, ltb, leb,
}
use type_ii_hypervisor_code.Word.{bit}

pub bit-zero : (i : ℕ) → bit 0 i ≡ false
unfolding bit
bit-zero zero = refl
bit-zero (suc i) = bit-zero i

abbrev differ : ℕ → ℕ → ℕ
differ a b = a + b - 2 * min a b

bit-digits_and : (i n a b : ℕ) → a ≤ n → bit (digits (λ y. 0) min n a b) i ≡ bit a i && bit b i
unfolding bit
bit-digits_and i zero zero b h = rw bit-zero
bit-digits_and i zero (suc a) b h = absurd (omega arith)
bit-digits_and i (suc n) zero b h = rw bit-zero
bit-digits_and zero (suc n) (suc a) b h = ground arith
bit-digits_and (suc i) (suc n) (suc a) b h =
    let upper : (digits (λ y. 0) min n (suc a / 2) (b / 2) * 2 + min (suc a % 2) (b % 2)) / 2
        ≡ digits (λ y. 0) min n (suc a / 2) (b / 2) =
      omega arith in
    rw upper (bit-digits_and i n (suc a / 2) (b / 2) (omega arith))

pub bit-and : (a b i : ℕ) → bit (bit_and a b) i ≡ bit a i && bit b i
bit-and a b i = rw bit_and-bitwise (bit-digits_and i a a b (omega arith))

bit-digits_or : (i n a b : ℕ) → a ≤ n → bit (digits (λ y. y) max n a b) i ≡ bit a i || bit b i
unfolding bit
bit-digits_or i zero zero b h = rw bit-zero
bit-digits_or i zero (suc a) b h = absurd (omega arith)
bit-digits_or i (suc n) zero b h = rw bit-zero
bit-digits_or zero (suc n) (suc a) b h = ground arith
bit-digits_or (suc i) (suc n) (suc a) b h =
    let upper : (digits (λ y. y) max n (suc a / 2) (b / 2) * 2 + max (suc a % 2) (b % 2)) / 2
        ≡ digits (λ y. y) max n (suc a / 2) (b / 2) =
      omega arith in
    rw upper (bit-digits_or i n (suc a / 2) (b / 2) (omega arith))

pub bit-or : (a b i : ℕ) → bit (bit_or a b) i ≡ bit a i || bit b i
bit-or a b i = rw bit_or-bitwise (bit-digits_or i a a b (omega arith))

-- Two numbers with the same bits are equal.
eq_of_bits_below : (n a b : ℕ) → a ≤ n → b ≤ n → ((i : ℕ) → bit a i ≡ bit b i) → a ≡ b
unfolding bit
eq_of_bits_below zero a b p q h = omega arith
eq_of_bits_below (suc n) a b p q h =
    ground
      (arith, h 0, eq_of_bits_below n (a / 2) (b / 2) (omega arith) (omega arith) (λ i. h (suc i)))

pub eq_of_bits : (a b : ℕ) → ((i : ℕ) → bit a i ≡ bit b i) → a ≡ b
eq_of_bits a b h = eq_of_bits_below (a + b) a b (omega arith) (omega arith) h

-- `2 ^ w - 1 - x` turns each of the w low bits.
pub bit-not : (w x i : ℕ) → x < 2 ^ w → bit (2 ^ w - 1 - x) i ≡ ltb i w && not (bit x i)
unfolding bit
bit-not zero x i h =
    let none : 2 ^ 0 - 1 - x ≡ 0 = omega arith in rw (none, bit-zero) (ground arith)
bit-not (suc w) x zero h = ground (arith, pow-suc 2 w)
bit-not (suc w) x (suc i) h =
    let upper : (2 ^ suc w - 1 - x) / 2 ≡ 2 ^ w - 1 - x / 2 = omega (arith, pow-suc 2 w) in
    rw upper (ground (arith, bit-not w (x / 2) i (omega (arith, pow-suc 2 w))))

pub bit-shr : (x k i : ℕ) → bit (x / 2 ^ k) i ≡ bit x (k + i)
unfolding bit
bit-shr x zero i =
    let whole : x / 2 ^ 0 ≡ x = omega arith in
    let here : 0 + i ≡ i = omega arith in rw (whole, here)
bit-shr x (suc k) i =
    let halves : x / 2 ^ suc k ≡ x / 2 / 2 ^ k =
      ap (λ t. x / t) (omega (arith, pow-suc 2 k)) ∙ sym (div-div-eq-div-mul x 2 (2 ^ k)) in
    let next : suc k + i ≡ suc (k + i) = omega arith in rw (halves, next) (bit-shr (x / 2) k i)

pub bit-mul : (x k i : ℕ) → bit (x * 2 ^ k) i ≡ leb k i && bit x (i - k)
unfolding bit
bit-mul x zero i =
    let whole : x * 2 ^ 0 ≡ x = omega arith in
    let here : i - 0 ≡ i = omega arith in rw (whole, here) (ground arith)
bit-mul x (suc k) zero =
    let double : x * 2 ^ suc k ≡ x * 2 ^ k * 2 =
      omega (arith, ap (λ (t : ℕ). x * t) (pow-suc 2 k)) in
    rw double (ground arith)
bit-mul x (suc k) (suc i) =
    let half : x * 2 ^ suc k / 2 ≡ x * 2 ^ k = omega (arith, ap (λ (t : ℕ). x * t) (pow-suc 2 k)) in
    let next : suc i - suc k ≡ i - k = omega arith in rw (half, next) (bit-mul x k i ∙ ground arith)

half-mod : (x w : ℕ) → x % 2 ^ suc w / 2 ≡ x / 2 % 2 ^ w
half-mod x w =
    let p = 2 ^ w in
    let q = x / 2 ^ suc w in
    let split : x % 2 ^ suc w + q * p * 2 ≡ x =
      omega (arith, mod-add-div' x (2 ^ suc w), ap (λ (t : ℕ). q * t) (pow-suc 2 w)) in
    let half : x / 2 ≡ x % 2 ^ suc w / 2 + q * p = omega arith in
    let small : x % 2 ^ suc w / 2 < p =
      omega (arith, mod-lt x {m = 2 ^ suc w} (one-le-pow (suc w) 2 (omega arith)), pow-suc 2 w) in
    sym (rw (half, add-mul-mod_self_right) (mod-eq_of_lt small))

even-mod : (x w : ℕ) → x % 2 ^ suc w % 2 ≡ x % 2
even-mod x w =
    let q = x / 2 ^ suc w in
    omega (arith, mod-add-div' x (2 ^ suc w), ap (λ (t : ℕ). q * t) (pow-suc 2 w))

-- Truncation to w bits.
pub bit-mod : (x w i : ℕ) → bit (x % 2 ^ w) i ≡ ltb i w && bit x i
unfolding bit
bit-mod x zero i = let none : x % 2 ^ 0 ≡ 0 = omega arith in rw (none, bit-zero) (ground arith)
bit-mod x (suc w) zero = ground (arith, even-mod x w)
bit-mod x (suc w) (suc i) = rw half-mod (bit-mod (x / 2) w i ∙ ground arith)

pub bit-high : (x w i : ℕ) → x < 2 ^ w → w ≤ i → bit x i ≡ false
bit-high x w i h k = ground (arith, bit-mod x w i, mod-eq_of_lt h)

-- A number with no bit from w on is below 2 ^ w.
pub lt_of_bits : (w x : ℕ) → ((i : ℕ) → w ≤ i → bit x i ≡ false) → x < 2 ^ w
unfolding bit
lt_of_bits zero x h =
    let none : x ≡ 0 = eq_of_bits x 0 (λ i. h i (omega arith) ∙ sym (bit-zero i)) in omega arith
lt_of_bits (suc w) x h =
    omega (arith, pow-suc 2 w, lt_of_bits w (x / 2) (λ i k. h (suc i) (omega arith)))

pub and-lt_left : (w a b : ℕ) → a < 2 ^ w → bit_and a b < 2 ^ w
and-lt_left w a b h = lt_of_bits w _ (λ i k. rw (bit-and, bit-high a w i h k))

pub and-lt_right : (w a b : ℕ) → b < 2 ^ w → bit_and a b < 2 ^ w
and-lt_right w a b h = lt_of_bits w _ (λ i k. rw (bit-and, bit-high b w i h k) (ground arith))

pub or-lt : (w a b : ℕ) → a < 2 ^ w → b < 2 ^ w → bit_or a b < 2 ^ w
or-lt w a b p q = lt_of_bits w _ (λ i k. rw (bit-or, bit-high a w i p k, bit-high b w i q k))
