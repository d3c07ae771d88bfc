-- ===== src/Text/Search.antt =====
-- Where a unit stands in a text, and what is on either side of it.
use smart_c_playground.Prelude.{
  subst, ap, ℕ, suc, ◌≡◌, refl, inl, inr, false, none, some, [], ◌∷◌, ◌++◌, arith, ◌==◌, ==_iff,
  if◌then◌else◌, >>=-eq-some, take, drop, length, Bool-cases, Option-cases, none≢some,
}
use mathlib.Core.Option.{some_inj}
use smart_c_playground.Text.{Text, index_of, last_index_of, includes}

pub index_of-split :
    (s : Text) (u i : ℕ) → index_of s u ≡ some i → s ≡ take i s ++ u ∷ drop (suc i) s
unfolding index_of
index_of-split [] u i e = ground arith
index_of-split (a ∷ s) u i e = elim (Bool-cases (a == u)) [
  | inl here ↦
      subst Splits (some_inj.0 (rw here at e)) (ap (λ (x : ℕ). x ∷ s) ((==_iff a u).0 here))
  | inr later ↦
      let (j, f, g) = >>=-eq-some (index_of s u) (λ j. some (suc j)) (rw later at e) in
      subst Splits (some_inj.0 g) (ap (◌∷◌ a) (index_of-split s u j f))
]
  where
    Splits : ℕ → Type 0
    Splits k = a ∷ s ≡ take k (a ∷ s) ++ u ∷ drop (suc k) (a ∷ s)

pub index_of-append :
    (s r : Text) (u : ℕ) → includes s u ≡ false → index_of (s ++ u ∷ r) u ≡ some (length s)
unfolding index_of includes
index_of-append [] r u h = ground arith
index_of-append (a ∷ s) r u h = ground (arith, index_of-append s r u)

last_index_of-none : (s : Text) (u : ℕ) → includes s u ≡ false → last_index_of s u ≡ none
unfolding last_index_of includes
last_index_of-none [] u h = refl
last_index_of-none (a ∷ s) u h = ground (arith, last_index_of-none s u)

pub last_index_of-append :
    (s r : Text) (u : ℕ) → includes r u ≡ false → last_index_of (s ++ u ∷ r) u ≡ some (length s)
unfolding last_index_of
last_index_of-append [] r u h = ground (arith, last_index_of-none r u)
last_index_of-append (a ∷ s) r u h = ground (arith, last_index_of-append s r u)

pub take-length : (s r : Text) → take (length s) (s ++ r) ≡ s
take-length [] r = refl
take-length (a ∷ s) r = ap (◌∷◌ a) (take-length s r)

pub drop-length : (s r : Text) (u : ℕ) → drop (suc (length s)) (s ++ u ∷ r) ≡ r
drop-length [] r u = refl
drop-length (a ∷ s) r u = drop-length s r u

pub last_index_of-split :
    (s : Text) (u i : ℕ) → last_index_of s u ≡ some i → s ≡ take i s ++ u ∷ drop (suc i) s
unfolding last_index_of
last_index_of-split [] u i e = ground arith
last_index_of-split (a ∷ s) u i e = elim (Option-cases (last_index_of s u)) [
  | inr (j, f) ↦
      subst Splits (some_inj.0 (rw (f, last_index_of) at e))
        (ap (◌∷◌ a) (last_index_of-split s u j f))
  | inl none_later ↦ here (rw (none_later, last_index_of) at e)
]
  where
    Splits : ℕ → Type 0
    Splits k = a ∷ s ≡ take k (a ∷ s) ++ u ∷ drop (suc k) (a ∷ s)

    here : (if a == u then some 0 else none) ≡ some i → Splits i
    here h = elim (Bool-cases (a == u)) [
      | inl same ↦
          subst Splits (some_inj.0 (rw same at h)) (ap (λ (x : ℕ). x ∷ s) ((==_iff a u).0 same))
      | inr other ↦ absurd (none≢some (rw other at h))
    ]
