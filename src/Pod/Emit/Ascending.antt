-- ===== src/Pod/Emit/Ascending.antt =====
-- pod.rs: frames of ascending counters, and their nonces.
use trackone.Prelude.{
  ℕ, suc, ◌^◌, ◌≤◌, ◌<◌, ◌≡◌, ◌≢◌, sym, ap, ◌∙◌, arith, Option, none, some, List, [], ◌∷◌, length,
  take, drop, All,
}
use trackone.Prelude.Bytes.{from_be_bytes, from_be_bytes-to_be_bytes}
use trackone.Prelude.Outcome.{done}
use trackone.Ingest.Nonce.{framed_nonce}
use trackone.Ingest.Nonce.Prefix.{framed_nonce_counter}
use trackone.Ingest.Frame.{EncryptedFrame}
use trackone.Pod.Nonce.{CounterNonce24}
use trackone.Pod.Emit.{check_restored}

-- Frames of ascending counters from `next` on, each under the nonce of its counter.
abbrev pub IsAscending : CounterNonce24 → Option ℕ → List EncryptedFrame → Type 0
IsAscending g next [] = Unit {0}
IsAscending g none (f ∷ fs) = ⊥
IsAscending g (some k) (f ∷ fs) =
    (k ≤ f.sealed_fc)
    × ((f.sealed_fc < 2 ^ 32)
        × ((f.sealed_nonce ≡ framed_nonce g.salt8 f.sealed_fc g.tail8)
            × IsAscending g (some (suc f.sealed_fc)) fs))

-- No two frames have the same nonce.
abbrev pub AreDistinct : List EncryptedFrame → Type 0
AreDistinct [] = Unit {0}
AreDistinct (f ∷ fs) =
    All (λ (h : EncryptedFrame). f.sealed_nonce ≢ h.sealed_nonce) fs × AreDistinct fs

pub lower :
    (g : CounterNonce24) (k j : ℕ) (fs : List EncryptedFrame)
    → k ≤ j
    → IsAscending g (some j) fs
    → IsAscending g (some k) fs
lower g k j [] h a = tt
lower g k j (f ∷ fs) h (le, (small, (same, rest))) = (omega arith, (small, (same, rest)))

pub none_lower :
    (g : CounterNonce24) (k : ℕ) (fs : List EncryptedFrame)
    → IsAscending g none fs
    → IsAscending g (some k) fs
none_lower g k [] a = tt
none_lower g k (f ∷ fs) a = absurd a

framed_nonce_injective :
    (g : CounterNonce24) (a b : ℕ)
    → length g.salt8 ≡ 8
    → a < 2 ^ 32
    → b < 2 ^ 32
    → framed_nonce g.salt8 a g.tail8 ≡ framed_nonce g.salt8 b g.tail8
    → a ≡ b
framed_nonce_injective g a b salt small small' e =
    sym (from_be_bytes-to_be_bytes 8 a (omega arith))
    ∙ ap from_be_bytes (
        sym (framed_nonce_counter g.salt8 a g.tail8 salt)
        ∙ ap (λ (n : List ℕ). take 8 (drop 8 n)) e
        ∙ framed_nonce_counter g.salt8 b g.tail8 salt)
    ∙ from_be_bytes-to_be_bytes 8 b (omega arith)

others_differ :
    (g : CounterNonce24) (a k : ℕ) (nonce_bytes : List ℕ) (fs : List EncryptedFrame)
    → length g.salt8 ≡ 8
    → a < k
    → a < 2 ^ 32
    → nonce_bytes ≡ framed_nonce g.salt8 a g.tail8
    → IsAscending g (some k) fs
    → All (λ (h : EncryptedFrame). nonce_bytes ≢ h.sealed_nonce) fs
others_differ g a k nonce_bytes [] salt lt small same asc = tt
others_differ g a k nonce_bytes (f ∷ fs) salt lt small same (le, (small', (own, rest))) = (
  λ e.
      let equal = framed_nonce_injective g a f.sealed_fc salt small small' (sym same ∙ e ∙ own) in
      absurd (omega arith),
  others_differ g a (suc f.sealed_fc) nonce_bytes fs salt (omega arith) small same rest,
)

pub ascending-AreDistinct :
    (g : CounterNonce24) (next : Option ℕ) (fs : List EncryptedFrame)
    → length g.salt8 ≡ 8
    → IsAscending g next fs
    → AreDistinct fs
ascending-AreDistinct g next [] salt asc = tt
ascending-AreDistinct g none (f ∷ fs) salt asc = absurd asc
ascending-AreDistinct g (some k) (f ∷ fs) salt (le, (small, (same, rest))) = (
  others_differ g f.sealed_fc (suc f.sealed_fc) f.sealed_nonce fs salt (omega arith) small same
      rest,
  ascending-AreDistinct g (some (suc f.sealed_fc)) fs salt rest,
)

pub restored_lower :
    (g : CounterNonce24) (current next : Option ℕ) (fs : List EncryptedFrame) {u : Unit {0}}
    → check_restored current next ≡ done u
    → IsAscending g next fs
    → IsAscending g current fs
unfolding check_restored
restored_lower g none none fs h a = a
restored_lower g none (some k) fs h a = absurd (cc h)
restored_lower g (some c) none fs h a = none_lower g c fs a
restored_lower g (some c) (some k) fs h a = lower g c k fs (ground arith) a
