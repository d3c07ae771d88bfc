-- ===== src/Map.antt =====
-- JavaScript's Map with string keys, as its entries in insertion order.
use smart_c_playground.Prelude.{
  ℕ, ◌+◌, ◌≤◌, ◌≡◌, refl, inl, inr, Option, none, some, List, [], ◌∷◌, arith, if◌then◌else◌,
  Bool-cases, All,
}
use smart_c_playground.Text.{Text, text_eq, text_eq_iff, text_eq_refl}

abbrev pub Map {ℓ} : Type ℓ → Type ℓ
Map V = List (Text × V)

module _ {ℓ} {V : Type ℓ} where
  -- map.get(k)
  unfoldable pub get : Map V → Text → Option V
  get [] k = none
  get ((j, v) ∷ m) k = if text_eq j k then some v else get m k

  -- map.set(k, v): a key that is there keeps its place.
  unfoldable pub set : Map V → Text → V → Map V
  set [] k v = (k, v) ∷ []
  set ((j, w) ∷ m) k v = if text_eq j k then (j, v) ∷ m else (j, w) ∷ set m k v

  -- map.delete(k)
  unfoldable pub delete : Map V → Text → Map V
  delete [] k = []
  delete ((j, w) ∷ m) k = if text_eq j k then m else (j, w) ∷ delete m k

  -- The sum of a measure over the values. With the measure 1 it is map.size.
  unfoldable pub total : (V → ℕ) → Map V → ℕ
  total f [] = 0
  total f ((j, w) ∷ m) = f w + total f m

  abbrev pub size : Map V → ℕ
  size = total (λ _. 1)

  -- No key stands twice, which a Map guarantees by itself.
  abbrev pub Distinct : Map V → Type ℓ
  Distinct [] = Unit
  Distinct ((j, w) ∷ m) = (get m j ≡ none) × Distinct m

  pub get-set_self : (m : Map V) (k : Text) (v : V) → get (set m k v) k ≡ some v
  unfolding get set
  get-set_self [] k v = ground (arith, text_eq_refl k)
  get-set_self ((j, w) ∷ m) k v = ground (arith, get-set_self m k v)

  pub get-set :
      (m : Map V) (k i : Text) (v : V)
      → get (set m k v) i ≡ (if text_eq k i then some v else get m i)
  unfolding get set
  get-set [] k i v = refl
  get-set ((j, w) ∷ m) k i v =
      ground (arith, text_eq_iff j k, text_eq_iff j i, text_eq_iff k i, get-set m k i v)

  pub get-delete :
      (m : Map V) (k i : Text)
      → Distinct m
      → get (delete m k) i ≡ (if text_eq k i then none else get m i)
  unfolding get delete
  get-delete [] k i d = ground arith
  get-delete ((j, w) ∷ m) k i d =
      ground (arith, text_eq_iff j k, text_eq_iff j i, text_eq_iff k i, get-delete m k i d.1)

  pub set-Distinct : (m : Map V) (k : Text) (v : V) → Distinct m → Distinct (set m k v)
  unfolding get set
  set-Distinct [] k v d = (refl, tt)
  set-Distinct ((j, w) ∷ m) k v d =
      ground (arith, set-Distinct m k v d.1, get-set m k j v, text_eq_iff j k, text_eq_iff k j)

  pub delete-Distinct : (m : Map V) (k : Text) → Distinct m → Distinct (delete m k)
  unfolding get delete
  delete-Distinct [] k d = tt
  delete-Distinct ((j, w) ∷ m) k d = ground (arith, delete-Distinct m k d.1, get-delete m k j d.1)

  pub total-set_new :
      (f : V → ℕ) (m : Map V) (k : Text) (v : V)
      → get m k ≡ none
      → total f (set m k v) ≡ total f m + f v
  unfolding get set total
  total-set_new f [] k v h = omega arith
  total-set_new f ((j, w) ∷ m) k v h = ground (arith, total-set_new f m k v)

  pub total-set_old :
      (f : V → ℕ) (m : Map V) (k : Text) (v w : V)
      → get m k ≡ some w
      → total f (set m k v) + f w ≡ total f m + f v
  unfolding get set total
  total-set_old f [] k v w h = ground arith
  total-set_old f ((j, x) ∷ m) k v w h = ground (arith, total-set_old f m k v w)

  pub total-set-le :
      (f : V → ℕ) (m : Map V) (k : Text) (v : V) → total f (set m k v) ≤ total f m + f v
  unfolding set total
  total-set-le f [] k v = omega arith
  total-set-le f ((j, w) ∷ m) k v = ground (arith, total-set-le f m k v)

  pub total-delete :
      (f : V → ℕ) (m : Map V) (k : Text) (w : V)
      → get m k ≡ some w
      → total f (delete m k) + f w ≡ total f m
  unfolding get delete total
  total-delete f [] k w h = ground arith
  total-delete f ((j, x) ∷ m) k w h = ground (arith, total-delete f m k w)

  pub le-total_of_get :
      (f : V → ℕ) (m : Map V) (k : Text) (w : V) → get m k ≡ some w → f w ≤ total f m
  le-total_of_get f m k w h = omega (arith, total-delete f m k w h)

module _ {ℓ κ} {V : Type ℓ} (P : Text → V → Type κ) where
  -- What holds of every entry.
  abbrev pub Every : Map V → Type κ
  Every m = All (λ e. P e.0 e.1) m

  pub Every-get : (m : Map V) (k : Text) (v : V) → Every m → get m k ≡ some v → P k v
  unfolding get
  Every-get [] k v a h = absurd (false_some h)
    where
      false_some : none ≡ some v → ⊥
      false_some e = cc
  Every-get ((j, w) ∷ m) k v a h = ground (arith, text_eq_iff j k, Every-get m k v a.1)

  pub set-Every : (m : Map V) (k : Text) (v : V) → P k v → Every m → Every (set m k v)
  unfolding set
  set-Every [] k v p a = (p, tt)
  set-Every ((j, w) ∷ m) k v p a = elim (Bool-cases (text_eq j k)) [
    | inl e ↦ rw e (rw ((text_eq_iff j k).0 e) p, a.1)
    | inr e ↦ rw e (a.0, set-Every m k v p a.1)
  ]

  pub delete-Every : (m : Map V) (k : Text) → Every m → Every (delete m k)
  unfolding delete
  delete-Every [] k a = a
  delete-Every ((j, w) ∷ m) k a = elim (Bool-cases (text_eq j k)) [
    | inl e ↦ rw e a.1
    | inr e ↦ rw e (a.0, delete-Every m k a.1)
  ]
