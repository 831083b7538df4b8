-- ===== src/Router/Penalties/Bounds.antt =====
-- What a stored penalty is worth at a time, and how high it gets.
use yggdrasil_go.Base.{
  ℕ, ◌+◌, ◌≤◌, ◌<◌, ◌≡◌, ◌≢◌, refl, sym, ◌∙◌, ap, min, inl, inr, some, Option-cases, Bool-cases,
  if◌then◌else◌, dec_lt, ◌⊎◌, ◌>>=◌, false, arith, ltb, leb,
}
use yggdrasil_go.Map.{Map, lookup, insert, delete, bytes_key, number_key}
use yggdrasil_go.Map.Laws.{
  lookup-insert_self, lookup-insert_ne, same_refl, lookup-delete_self, lookup-delete_ne,
}
use yggdrasil_go.Router.State.{Router, RouterPenaltyKey, RouterPenaltyEntry, penalty_key}
use yggdrasil_go.Router.Penalties.{decay, get_decayed_penalty, add_penalty, max_penalty}
use yggdrasil_go.Router.Penalties.Decay.{worth, decay_anti, decay_gone, decay-le, decay_fresh}

-- What a penalty is worth at a time, which `_getDecayedPenalty` returns.
pub worth_of : ℕ → RouterPenaltyKey → Map RouterPenaltyKey RouterPenaltyEntry → ℕ
worth_of now key m = worth (lookup key m >>= decay now)

abbrev pub GotDecayed : ℕ → RouterPenaltyKey → Router → ℕ × Router → Type 0
GotDecayed now key r (n, r') =
    (n ≡ worth_of now key r.penalties)
    × ((r' ≡ r)
        ⊎ ((worth_of now key r.penalties ≡ 0)
            × ((later : ℕ) → now ≤ later → worth_of later key r.penalties ≡ 0)
            × (r' ≡ record r { penalties = delete key r.penalties })))

pub got_decayed :
    (now : ℕ) (key : RouterPenaltyKey) (r : Router)
    → GotDecayed now key r (get_decayed_penalty now key r)
unfolding get_decayed_penalty worth_of
got_decayed now key r = elim (Option-cases (lookup key r.penalties)) [
  | inl e ↦ rw (e, get_decayed_penalty) (refl, inl refl)
  | inr (entry, e) ↦ elim (Option-cases (decay now entry)) [
    | inl d ↦
        rw (e, get_decayed_penalty)
          (rw d (refl, inr (refl, (λ later h. rw (decay_gone entry now later h d)), refl)))
    | inr (left, d) ↦ rw (e, get_decayed_penalty) (rw d (refl, inl refl))
  ]
]

pub worth_of-delete :
    (now : ℕ) (key key' : RouterPenaltyKey) (m : Map RouterPenaltyKey RouterPenaltyEntry)
    → worth_of now key m ≡ 0
    → worth_of now key' (delete key m) ≡ worth_of now key' m
worth_of-delete now key key' m h = elim (Bool-cases (penalty_key.same key' key)) [
  | inl e ↦
      rw ((penalty_key.same_iff key' key).0 e)
        (rw h (unfold worth_of in rw (lookup-delete_self key m)))
  | inr e ↦ unfold worth_of in rw (lookup-delete_ne key key' m (λ p. cc (e, same_refl key)))
]

pub got_worth :
    (now : ℕ) (key : RouterPenaltyKey) (r : Router)
    → (get_decayed_penalty now key r).0 ≡ worth_of now key r.penalties
got_worth now key r = (got_decayed now key r).0

-- Reading a penalty deletes an entry that is worth nothing, and no later reading of any key shows
-- it: the value is the same as without the first reading.
pub get_decayed_penalty_silent :
    (now later : ℕ) (key key' : RouterPenaltyKey) (r : Router)
    → now ≤ later
    → (get_decayed_penalty later key' (get_decayed_penalty now key r).1).0
      ≡ (get_decayed_penalty later key' r).0
get_decayed_penalty_silent now later key key' r h = elim ((got_decayed now key r).1) [
  | inl e ↦ rw e
  | inr (z, gone, e) ↦ rw e (
      got_worth later key' _
      ∙ worth_of-delete later key key' r.penalties (gone later h)
      ∙ sym (got_worth later key' r))
]

worth_of_anti :
    (now later : ℕ) (key : RouterPenaltyKey) (m : Map RouterPenaltyKey RouterPenaltyEntry)
    → now ≤ later
    → worth_of later key m ≤ worth_of now key m
unfolding worth_of
worth_of_anti now later key m h = elim (Option-cases (lookup key m)) [
  | inl e ↦ rw e (omega arith)
  | inr (entry, e) ↦ rw e (decay_anti entry now later h)
]

-- At a later time the same penalty is never higher.
pub get_decayed_penalty_anti :
    (now later : ℕ) (key : RouterPenaltyKey) (r : Router)
    → now ≤ later
    → (get_decayed_penalty later key r).0 ≤ (get_decayed_penalty now key r).0
get_decayed_penalty_anti now later key r h =
    rw (got_worth now key r, got_worth later key r) (worth_of_anti now later key r.penalties h)

-- Every entry is at most `maxPenalty`.
abbrev pub IsBounded : Map RouterPenaltyKey RouterPenaltyEntry → Type 0
IsBounded m =
    (key : RouterPenaltyKey) (entry : RouterPenaltyEntry)
    → lookup key m ≡ some entry
    → entry.penalty_ms ≤ max_penalty

pub get_decayed_penalty-IsBounded :
    (now : ℕ) (key : RouterPenaltyKey) (r : Router)
    → IsBounded r.penalties
    → IsBounded (get_decayed_penalty now key r).1.penalties
get_decayed_penalty-IsBounded now key r b = elim ((got_decayed now key r).1) [
  | inl e ↦ rw e b
  | inr (z, gone, e) ↦ rw e λ key' entry found. elim (Bool-cases (penalty_key.same key' key)) [
    | inl same ↦
        let q = rw ((penalty_key.same_iff key' key).0 same) at found in
        cc (q, lookup-delete_self key r.penalties)
    | inr other ↦
        b key' entry
          (sym (lookup-delete_ne key key' r.penalties (λ p. cc (other, p, same_refl key))) ∙ found)
  ]
]

insert-IsBounded :
    (key : RouterPenaltyKey) (n now : ℕ) (m : Map RouterPenaltyKey RouterPenaltyEntry)
    → n ≤ max_penalty
    → IsBounded m
    → IsBounded (insert key (record { penalty_ms = n; recorded_at = now }) m)
insert-IsBounded key n now m small b key' entry found =
    elim (Bool-cases (penalty_key.same key' key)) [
      | inl same ↦
          let q = rw ((penalty_key.same_iff key' key).0 same) at found in
          let e = lookup-insert_self key (record { penalty_ms = n; recorded_at = now }) m in
          ground (arith, q, e)
      | inr other ↦
          b key' entry
            (sym (lookup-insert_ne key key' _ m (λ p. cc (other, p, same_refl key))) ∙ found)
    ]

-- The total that `_addPenalty` stores.
pub capped : ℕ → ℕ
capped total = if ltb max_penalty total then max_penalty else total

pub capped-min : (total : ℕ) → capped total ≡ min max_penalty total
unfolding capped
capped-min total = ground arith

pub add_penalty_lem :
    (now : ℕ) (key : RouterPenaltyKey) (component : ℕ) (r : Router)
    → 0 < component
    → let r' = (get_decayed_penalty now key r).1 in
      add_penalty now key component r ≡ record r' {
        penalties =
            insert key
              (record {
                penalty_ms = capped (worth_of now key r.penalties + component);
                recorded_at = now;
              })
              r'.penalties;
      }
unfolding add_penalty capped
add_penalty_lem now key component r h =
    let e : leb component 0 ≡ false = ground arith in rw (e, got_worth now key r)

pub add_penalty-IsBounded :
    (now : ℕ) (key : RouterPenaltyKey) (component : ℕ) (r : Router)
    → IsBounded r.penalties
    → IsBounded (add_penalty now key component r).penalties
add_penalty-IsBounded now key component r b = elim (dec_lt 0 component) [
  | no h ↦ let e : component ≡ 0 = omega arith in unfold add_penalty in rw e b
  | yes h ↦ rw (add_penalty_lem now key component r h) (
      insert-IsBounded key _ now _ (unfold capped in ground arith)
        (get_decayed_penalty-IsBounded now key r b))
]

pub worth_of-le :
    (now : ℕ) (key : RouterPenaltyKey) (m : Map RouterPenaltyKey RouterPenaltyEntry)
    → IsBounded m
    → worth_of now key m ≤ max_penalty
unfolding worth_of
worth_of-le now key m b = elim (Option-cases (lookup key m)) [
  | inl e ↦ rw e (omega arith)
  | inr (entry, e) ↦ rw e (omega (arith, decay-le now entry, b key entry e))
]

-- A penalty just stored is worth its amount, if that is not 0.
pub worth_of-insert_self :
    (now n : ℕ) (key : RouterPenaltyKey) (m : Map RouterPenaltyKey RouterPenaltyEntry)
    → 1 ≤ n
    → worth_of now key (insert key (record { penalty_ms = n; recorded_at = now }) m) ≡ n
unfolding worth_of
worth_of-insert_self now n key m h =
    let entry : RouterPenaltyEntry = record { penalty_ms = n; recorded_at = now } in
    rw (lookup-insert_self key entry m) (ap worth (decay_fresh entry h))

pub worth_of-insert_ne :
    (now : ℕ) (key key' : RouterPenaltyKey) (entry : RouterPenaltyEntry)
    (m : Map RouterPenaltyKey RouterPenaltyEntry)
    → key' ≢ key
    → worth_of now key' (insert key entry m) ≡ worth_of now key' m
unfolding worth_of
worth_of-insert_ne now key key' entry m h = rw (lookup-insert_ne key key' entry m h)
