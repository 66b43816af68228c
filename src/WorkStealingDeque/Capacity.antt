-- ===== src/WorkStealingDeque/Capacity.antt =====
-- The capacities: `normalize_capacity` ends with the power of two asked for, and a buffer that
-- `grow` makes has room.
use code_knife.Prelude.{
  ℕ, zero, suc, ◌+◌, ◌*◌, ◌^◌, ◌≤◌, ◌<◌, ◌≡◌, ltb, if◌then◌else◌, refl, ap, arith, true, Bool-cases,
  inl, inr, Option, none, some, length-replicate,
}
use native.Mathlib.Decide.{dec_lt}
use native.Mathlib.Nat.{one-le-pow, pow-suc, pow-le-pow_right}
use code_knife.WorkStealingDeque.{
  mul_size, sub_size, double_until, double_beyond, normalize_capacity, new_buffer,
}
use code_knife.WorkStealingDeque.Slots.{IsRing}

-- What the loop over the capacity returns: a power of two that fits and is not twice too large.
pub record IsFit (requested : ℕ) (result : Option ℕ) : Type 0 where
  pub log : ℕ
  pub returns : result ≡ some (2 ^ log)
  pub fits : requested ≤ 2 ^ log
  pub tight : 2 ^ log < 2 * requested
  pub in_word : log ≤ 63

pub log_lt : (k : ℕ) → k ≤ 63 → 2 ^ k < 2 ^ 63 → k < 63
log_lt k h p = elim (dec_lt k 63) [
  | yes q ↦ q
  | no q ↦ let e : k ≡ 63 = omega arith in absurd (omega (arith, ap (λ (t : ℕ). 2 ^ t) e))
]

double_until-IsFit :
    (fuel k requested : ℕ)
    → 63 < k + fuel
    → k ≤ 63
    → requested ≤ 2 ^ 63
    → 2 ^ k < 2 * requested
    → IsFit requested (double_until fuel (2 ^ k) requested)
unfolding double_until
double_until-IsFit zero k requested f h c m = absurd (omega arith)
double_until-IsFit (suc fuel) k requested f h c m = elim (Bool-cases (ltb (2 ^ k) requested)) [
  | inr stop ↦
      let low : requested ≤ 2 ^ k = ground arith in
      simp stop (record { log = k; returns = refl; fits = low; tight = m; in_word = h })
  | inl more ↦
      let low : 2 ^ k < requested = ground arith in
      let next : mul_size (2 ^ k) 2 ≡ 2 ^ suc k = omega (arith, pow-suc 2 k) in
      simp (more, next)
        (double_until-IsFit fuel (suc k) requested (omega arith) (log_lt k h (omega arith)) c
          (omega (arith, pow-suc 2 k)))
]

-- For up to 2^63 slots the loop ends, with the smallest power of two that is at least 2 and at
-- least what is asked for.
pub normalize_capacity-IsFit :
    (requested : ℕ)
    → requested ≤ 2 ^ 63
    → IsFit (if ltb requested 2 then 2 else requested) (normalize_capacity requested)
unfolding normalize_capacity
normalize_capacity-IsFit requested h =
    double_until-IsFit 65 0 (if ltb requested 2 then 2 else requested) (omega arith) (omega arith)
      (ground arith) (ground arith)

-- Above 2^63 the doubling wraps to 0 and stays there: no number of rounds ends the loop.
double_until-wrapped : (fuel requested : ℕ) → 0 < requested → double_until fuel 0 requested ≡ none
unfolding double_until
double_until-wrapped zero requested h = refl
double_until-wrapped (suc fuel) requested h = ground (arith, double_until-wrapped fuel requested h)

double_until-none :
    (fuel k requested : ℕ)
    → k ≤ 63
    → 2 ^ 63 < requested
    → double_until fuel (2 ^ k) requested ≡ none
unfolding double_until
double_until-none zero k requested h p = refl
double_until-none (suc fuel) k requested h p =
    let small : 2 ^ k ≤ 2 ^ 63 = pow-le-pow_right {n = 2} (omega arith) h in
    let more : ltb (2 ^ k) requested ≡ true = ground arith in
    elim (dec_lt k 63) [
      | yes q ↦
          let next : mul_size (2 ^ k) 2 ≡ 2 ^ suc k = omega (
            arith,
            pow-suc 2 k,
            pow-le-pow_right {n = 2} (omega arith) {i = k} {j = 62} (omega arith),
          ) in
          simp (more, next) (double_until-none fuel (suc k) requested q p)
      | no q ↦
          let next : mul_size (2 ^ k) 2 ≡ 0 =
            omega (arith, ap (λ (t : ℕ). 2 ^ t) {x = k} {y = 63} (omega arith)) in
          simp (more, next) (double_until-wrapped fuel requested (omega arith))
    ]

-- For more than 2^63 slots no number of rounds is enough: the loop does not end.
pub double_until-endless :
    (fuel requested : ℕ) → 2 ^ 63 < requested → double_until fuel 1 requested ≡ none
double_until-endless fuel requested p = double_until-none fuel 0 requested (omega arith) p

pub log_le : (log : ℕ) → 2 ^ log ≤ 2 ^ 62 → log ≤ 62
log_le log h = elim (dec_lt 62 log) [
  | yes q ↦ absurd (omega (arith, pow-le-pow_right {n = 2} (omega arith) {i = 63} {j = log} q))
  | no q ↦ omega arith
]

-- The loop of `grow` stops at the first capacity with room for the items and a free slot.
pub double_beyond_stop :
    (fuel n count : ℕ) → count < sub_size n 1 → double_beyond (suc fuel) n count ≡ n
unfolding double_beyond
double_beyond_stop fuel n count h = ground arith

module _ {ℓ} (A : Type ℓ) where
  -- A new buffer of a power of two slots is a ring.
  pub new_buffer-IsRing : (log : ℕ) → log ≤ 63 → IsRing (new_buffer {A = A} (2 ^ log))
  unfolding new_buffer
  new_buffer-IsRing log h = record {
    log = log;
    size = refl;
    low_bits = omega (
      arith,
      pow-le-pow_right {n = 2} (omega arith) {i = log} {j = 63} h,
      one-le-pow log 2 (omega arith),
    );
    filled = length-replicate (2 ^ log) none;
  }
