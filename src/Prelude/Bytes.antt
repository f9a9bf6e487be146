-- ===== src/Prelude/Bytes.antt =====
-- Big-endian integers: `to_be_bytes` and `from_be_bytes` at every width.
use native.Mathlib.Nat.{
  mod-eq_of_lt, div-add-mod, div-div-eq-div-mul, pow-suc, add-mul-div_right, div-eq_of_lt,
}
use Prim.Native.Nat.{ℕ, zero, suc, ◌+◌, ◌*◌, ◌/◌, ◌%◌, ◌^◌, ◌<◌}
use mathlib.Core.Path.{ap₂, ◌≡◌, refl, ap, ◌∙◌}
use mathlib.Core.List.{List, [], ◌∷◌}
use native.Mathlib.Omega.{arith}
use trackone.Prelude.Lists.{length, All}

-- The `w` bytes of `n`, most significant first.
unfoldable pub to_be_bytes : ℕ → ℕ → List ℕ
to_be_bytes zero n = []
to_be_bytes (suc w) n = n / 256 ^ w % 256 ∷ to_be_bytes w n

-- The number that bytes stand for, after `acc`.
pub from_be_after : ℕ → List ℕ → ℕ
from_be_after acc [] = acc
from_be_after acc (b ∷ bs) = from_be_after (acc * 256 + b) bs

unfoldable pub from_be_bytes : List ℕ → ℕ
unfolding from_be_after
from_be_bytes bytes = from_be_after 0 bytes

pub length-to_be_bytes : (w n : ℕ) → length (to_be_bytes w n) ≡ w
unfolding to_be_bytes
length-to_be_bytes zero n = refl
length-to_be_bytes (suc w) n = ap suc (length-to_be_bytes w n)

pow-pos : (w : ℕ) → 0 < 256 ^ w
pow-pos zero = omega arith
pow-pos (suc w) = rw pow-suc (omega (arith, pow-pos w))

-- One more digit in front of the digits below `p`.
digit_step : (n p : ℕ) → n / p % 256 * p + n % p ≡ n % (p * 256)
digit_step n p =
    let whole : p * 256 * (n / p / 256) + n % (p * 256) ≡ n =
      rw (div-div-eq-div-mul n p 256) (div-add-mod n (p * 256)) in
    omega (arith, whole, div-add-mod n p, ap (λ (t : ℕ). p * t) (div-add-mod (n / p) 256))

from_be_after-to_be_bytes :
    (w acc n : ℕ) → from_be_after acc (to_be_bytes w n) ≡ acc * 256 ^ w + n % 256 ^ w
unfolding from_be_after to_be_bytes
from_be_after-to_be_bytes zero acc n = omega arith
from_be_after-to_be_bytes (suc w) acc n =
    from_be_after-to_be_bytes w (acc * 256 + n / 256 ^ w % 256) n
    ∙ rw (pow-suc 256 w, ← digit_step n (256 ^ w)) (omega arith)

-- Reading back what was written, for a number that fits the width.
pub from_be_bytes-to_be_bytes : (w n : ℕ) → n < 256 ^ w → from_be_bytes (to_be_bytes w n) ≡ n
unfolding from_be_bytes
from_be_bytes-to_be_bytes w n h =
    from_be_after-to_be_bytes w 0 n ∙ rw (mod-eq_of_lt h) (omega arith)

digits_lt : (b p r : ℕ) → b < 256 → r < p → (0 * 256 + b) * p + r < p * 256
digits_lt b p r h k = grind arith

abbrev pub IsByte : ℕ → Type 0
IsByte b = b < 256

pub to_be_bytes-IsByte : (w n : ℕ) → All IsByte (to_be_bytes w n)
unfolding to_be_bytes
to_be_bytes-IsByte zero n = tt
to_be_bytes-IsByte (suc w) n = (omega arith, to_be_bytes-IsByte w n)

from_be_after-split :
    (acc : ℕ) (bs : List ℕ) → from_be_after acc bs ≡ acc * 256 ^ length bs + from_be_after 0 bs
unfolding from_be_after
from_be_after-split acc [] = omega arith
from_be_after-split acc (b ∷ bs) =
    from_be_after-split (acc * 256 + b) bs
    ∙ rw (pow-suc 256 (length bs), from_be_after-split (0 * 256 + b) bs) (omega arith)

pub from_be_bytes-lt : (bs : List ℕ) → All IsByte bs → from_be_bytes bs < 256 ^ length bs
unfolding from_be_bytes from_be_after
from_be_bytes-lt [] h = omega arith
from_be_bytes-lt (b ∷ bs) h =
    rw (from_be_after-split (0 * 256 + b) bs, pow-suc 256 (length bs))
      (digits_lt b (256 ^ length bs) (from_be_after 0 bs) h.0 (from_be_bytes-lt bs h.1))

to_be_bytes_add : (w a n : ℕ) → to_be_bytes w (n + a * 256 ^ w) ≡ to_be_bytes w n
unfolding to_be_bytes
to_be_bytes_add zero a n = refl
to_be_bytes_add (suc w) a n =
    let p : ℕ = 256 ^ w in
    let shift : n + a * 256 ^ suc w ≡ n + a * 256 * p = rw (pow-suc 256 w) (omega arith) in
    let digit : (n + a * 256 * p) / p % 256 ≡ n / p % 256 =
      rw (add-mul-div_right n (a * 256) (pow-pos w)) (omega arith) in
    rw shift (ap₂ ◌∷◌ digit (to_be_bytes_add w (a * 256) n))

-- Writing back the bytes that were read.
pub to_be_bytes-from_be_bytes :
    (bs : List ℕ) → All IsByte bs → to_be_bytes (length bs) (from_be_bytes bs) ≡ bs
unfolding from_be_bytes from_be_after to_be_bytes
to_be_bytes-from_be_bytes [] h = refl
to_be_bytes-from_be_bytes (b ∷ bs) h =
    let p : ℕ = 256 ^ length bs in
    let r : ℕ = from_be_after 0 bs in
    let whole : from_be_after (0 * 256 + b) bs ≡ r + b * p =
      from_be_after-split (0 * 256 + b) bs ∙ omega arith in
    let below : r / p ≡ 0 = div-eq_of_lt (from_be_bytes-lt bs h.1) in
    let digit : (r + b * p) / p % 256 ≡ b =
      rw (add-mul-div_right r b (pow-pos (length bs)), below) (omega (arith, h.0)) in
    rw whole (ap₂ ◌∷◌ digit (to_be_bytes_add (length bs) b r ∙ to_be_bytes-from_be_bytes bs h.1))
