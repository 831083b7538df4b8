-- ===== src/Router/Penalties/Decay.antt =====
-- How a penalty falls with time.
use yggdrasil_go.Base.{
  ℕ, zero, suc, ◌+◌, ◌-◌, ◌*◌, ◌/◌, ◌%◌, ◌^◌, ◌≤◌, ◌<◌, ◌≡◌, sym, arith, dec_lt, Option, none, some,
}
use native.Mathlib.Nat.{pow-suc, div-div-eq-div-mul, div-le_self}
use yggdrasil_go.Router.State.{RouterPenaltyEntry}
use yggdrasil_go.Router.Penalties.{interpolate, decay, penalty_half_life, milliseconds}

div-pow_suc : (p s : ℕ) → p / 2 ^ suc s ≡ p / 2 ^ s / 2
div-pow_suc p s = rw pow-suc (sym (div-div-eq-div-mul p (2 ^ s) 2))

-- Later halvings take at least half.
div-pow_mono : (p s t : ℕ) → s < t → 2 * (p / 2 ^ t) ≤ p / 2 ^ s
div-pow_mono p s zero h = absurd (omega arith)
div-pow_mono p s (suc t) h = elim (dec_lt s t) [
  | yes lt ↦ omega (arith, div-pow_suc p t, div-pow_mono p s t lt)
  | no ge ↦ let e : t ≡ s = omega arith in rw e (omega (arith, div-pow_suc p s))
]

scale_mono : (A x y : ℕ) → x ≤ y → A * x / 600000 ≤ A * y / 600000
scale_mono A x y h = let m : A * x ≤ A * y = grind arith in omega arith

scale_halved : (A B x y : ℕ) → 2 * B ≤ A → x ≤ 600000 → 300000 ≤ y → B * x / 600000 ≤ A * y / 600000
scale_halved A B x y h hx hy =
    let m : B * x ≤ B * 600000 = grind arith in
    let n : A * 300000 ≤ A * y = grind arith in omega arith

-- A penalty never grows with time.
pub interpolate_anti : (p a b : ℕ) → a ≤ b → interpolate p b ≤ interpolate p a
interpolate_anti p a b h = elim (dec_lt (a / 300000) (b / 300000)) [
  | yes lt ↦ scale_halved _ _ _ _ (div-pow_mono p _ _ lt) (omega arith) (omega arith)
  | no ge ↦
      let e : b / 300000 ≡ a / 300000 = omega arith in
      rw e (scale_mono (p / 2 ^ (a / 300000)) _ _ (omega arith))
]

pub interpolate-le : (p a : ℕ) → interpolate p a ≤ p
interpolate-le p a =
    let q : p / 2 ^ (a / 300000) ≤ p = div-le_self p (2 ^ (a / 300000)) in
    let m : p / 2 ^ (a / 300000) * (600000 - a % 300000) ≤ p / 2 ^ (a / 300000) * 600000 =
      grind arith in
    omega arith

-- A deleted entry is worth nothing.
abbrev pub worth : Option ℕ → ℕ
worth none = 0
worth (some left) = left

module _ (entry : RouterPenaltyEntry) (now later : ℕ) (h : now ≤ later) where
  elapsed_mono : milliseconds (now - entry.recorded_at) ≤ milliseconds (later - entry.recorded_at)
  elapsed_mono = omega arith

  pub decay_anti : worth (decay later entry) ≤ worth (decay now entry)
  unfolding decay
  decay_anti = ground (
    arith,
    elapsed_mono,
    interpolate_anti entry.penalty_ms (milliseconds (now - entry.recorded_at))
        (milliseconds (later - entry.recorded_at)) elapsed_mono,
  )

  pub decay_gone : decay now entry ≡ none → decay later entry ≡ none
  unfolding decay
  decay_gone = ground (
    arith,
    elapsed_mono,
    interpolate_anti entry.penalty_ms (milliseconds (now - entry.recorded_at))
        (milliseconds (later - entry.recorded_at)) elapsed_mono,
  )

pub decay-le : (now : ℕ) (entry : RouterPenaltyEntry) → worth (decay now entry) ≤ entry.penalty_ms
unfolding decay
decay-le now entry =
    ground (arith, interpolate-le entry.penalty_ms (milliseconds (now - entry.recorded_at)))

halvings : (p n : ℕ) → interpolate p (milliseconds (n * (penalty_half_life * 1000000))) ≡ p / 2 ^ n
halvings p n =
    let e : n * 300000000000 / 1000000 / 300000 ≡ n = omega arith in
    let z : n * 300000000000 / 1000000 % 300000 ≡ 0 = omega arith in rw (e, z) (omega arith)

-- After `n` half-lives, less than 63, exactly `n` halvings are left, if that is a millisecond.
pub decay_half_lives :
    (n : ℕ) (entry : RouterPenaltyEntry)
    → n < 63
    → 1 ≤ entry.penalty_ms / 2 ^ n
    → decay (entry.recorded_at + n * (penalty_half_life * 1000000)) entry
      ≡ some (entry.penalty_ms / 2 ^ n)
unfolding decay
decay_half_lives n entry h k =
    let e : entry.recorded_at + n * 300000000000 - entry.recorded_at ≡ n * 300000000000 =
      omega arith in
    rw e (ground (arith, halvings entry.penalty_ms n))

-- Nothing has fallen yet when a penalty was just recorded.
pub decay_fresh :
    (entry : RouterPenaltyEntry)
    → 1 ≤ entry.penalty_ms
    → decay entry.recorded_at entry ≡ some entry.penalty_ms
unfolding decay
decay_fresh entry h =
    let e : entry.recorded_at - entry.recorded_at ≡ 0 = omega arith in
    rw e (ground (arith, halvings entry.penalty_ms 0))
