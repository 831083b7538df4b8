-- ===== src/Map/Laws.antt =====
-- Reads after writes.
use yggdrasil_go.Base.{
  ◌≡◌, ◌≢◌, refl, sym, ◌∙◌, ap, [], ◌∷◌, true, false, none, some, if◌then◌else◌, Bool-cases,
  Option-cases, inl, inr,
}
use yggdrasil_go.Map.{Key, Map, lookup, insert, delete, is_in}

module _ {ℓ} {K : Type ℓ} ⦃k : Key K⦄ where
  pub same_refl : (a : K) → k.same a a ≡ true
  same_refl a = (k.same_iff a a).1 refl

  pub same_ne : (a b : K) → a ≢ b → k.same a b ≡ false
  same_ne a b h = elim (Bool-cases (k.same a b)) [
    | inl e ↦ absurd (h ((k.same_iff a b).0 e))
    | inr e ↦ e
  ]

module _ {ℓ κ} {K : Type ℓ} {V : Type κ} ⦃k : Key K⦄ where
  pub lookup-insert_self : (a : K) (v : V) (m : Map K V) → lookup a (insert a v m) ≡ some v
  unfolding lookup insert
  lookup-insert_self a v [] = rw (same_refl a)
  lookup-insert_self a v ((b, w) ∷ m) = elim (Bool-cases (k.same a b)) [
    | inl e ↦ rw e (rw e)
    | inr e ↦ rw e (rw e (lookup-insert_self a v m))
  ]

  pub lookup-insert_ne :
      (a c : K) (v : V) (m : Map K V) → c ≢ a → lookup c (insert a v m) ≡ lookup c m
  unfolding lookup insert
  lookup-insert_ne a c v [] h = rw (same_ne c a h)
  lookup-insert_ne a c v ((b, w) ∷ m) h = elim (Bool-cases (k.same a b)) [
    | inl e ↦ rw e (rw (same_ne c b (λ p. h (p ∙ sym ((k.same_iff a b).0 e)))))
    | inr e ↦ rw e (ap (λ o. if k.same c b then some w else o) (lookup-insert_ne a c v m h))
  ]

  pub lookup-delete_self : (a : K) (m : Map K V) → lookup a (delete a m) ≡ none
  unfolding lookup delete
  lookup-delete_self a [] = refl
  lookup-delete_self a ((b, w) ∷ m) = elim (Bool-cases (k.same a b)) [
    | inl e ↦ rw e (lookup-delete_self a m)
    | inr e ↦ rw e (rw e (lookup-delete_self a m))
  ]

  pub lookup-delete_ne : (a c : K) (m : Map K V) → c ≢ a → lookup c (delete a m) ≡ lookup c m
  unfolding lookup delete
  lookup-delete_ne a c [] h = refl
  lookup-delete_ne a c ((b, w) ∷ m) h = elim (Bool-cases (k.same a b)) [
    | inl e ↦
        rw e (rw (same_ne c b (λ p. h (p ∙ sym ((k.same_iff a b).0 e)))) (lookup-delete_ne a c m h))
    | inr e ↦ rw e (ap (λ o. if k.same c b then some w else o) (lookup-delete_ne a c m h))
  ]

  -- The same with the test in the statement.
  pub lookup-insert :
      (a c : K) (v : V) (m : Map K V)
      → lookup c (insert a v m) ≡ (if k.same c a then some v else lookup c m)
  lookup-insert a c v m = elim (Bool-cases (k.same c a)) [
    | inl e ↦ rw e (rw ((k.same_iff c a).0 e) (lookup-insert_self a v m))
    | inr e ↦ rw e (lookup-insert_ne a c v m (λ p. cc (e, p, same_refl a)))
  ]

  pub lookup-delete :
      (a c : K) (m : Map K V) → lookup c (delete a m) ≡ (if k.same c a then none else lookup c m)
  lookup-delete a c m = elim (Bool-cases (k.same c a)) [
    | inl e ↦ rw e (rw ((k.same_iff c a).0 e) (lookup-delete_self a m))
    | inr e ↦ rw e (lookup-delete_ne a c m (λ p. cc (e, p, same_refl a)))
  ]

  pub is_in-lookup : (a : K) (m : Map K V) {v : V} → lookup a m ≡ some v → is_in a m ≡ true
  unfolding is_in
  is_in-lookup a m e = rw (e, is_in)

  pub is_in-none : (a : K) (m : Map K V) → lookup a m ≡ none → is_in a m ≡ false
  unfolding is_in
  is_in-none a m e = rw (e, is_in)

  pub is_in_cong : (a : K) (m n : Map K V) → lookup a m ≡ lookup a n → is_in a m ≡ is_in a n
  unfolding is_in
  is_in_cong a m n e = ap (λ o. elim o [ none ↦ false | some v ↦ true ]) e

  pub lookup-is_in : (a : K) (m : Map K V) → is_in a m ≡ true → (v : V) × (lookup a m ≡ some v)
  lookup-is_in a m h = elim (Option-cases (lookup a m)) [
    | inl e ↦ cc (is_in-none a m e)
    | inr found ↦ found
  ]

  pub is_in-insert :
      (a c : K) (v : V) (m : Map K V)
      → is_in c (insert a v m) ≡ (if k.same c a then true else is_in c m)
  is_in-insert a c v m = elim (Bool-cases (k.same c a)) [
    | inl e ↦ rw e (is_in-lookup c _ {v = v} (lookup-insert a c v m ∙ rw e))
    | inr e ↦ rw e (is_in_cong c _ m (lookup-insert a c v m ∙ rw e))
  ]

  pub is_in-delete :
      (a c : K) (m : Map K V) → is_in c (delete a m) ≡ (if k.same c a then false else is_in c m)
  is_in-delete a c m = elim (Bool-cases (k.same c a)) [
    | inl e ↦ rw e (is_in-none c _ (lookup-delete a c m ∙ rw e))
    | inr e ↦ rw e (is_in_cong c _ m (lookup-delete a c m ∙ rw e))
  ]

  pub is_in_cons :
      (a b : K) (v : V) (m : Map K V)
      → is_in a ((b, v) ∷ m) ≡ (if k.same a b then true else is_in a m)
  unfolding lookup
  is_in_cons a b v m = elim (Bool-cases (k.same a b)) [
    | inl e ↦ rw e (is_in-lookup a ((b, v) ∷ m) {v = v} (rw e))
    | inr e ↦ rw e (is_in_cong a ((b, v) ∷ m) m (rw e))
  ]
