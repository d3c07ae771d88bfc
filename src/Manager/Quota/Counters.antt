-- ===== src/Manager/Quota/Counters.antt =====
-- The pending counters hold how many reservations each key has, and no key with none.
use smart_c_playground.Prelude.{
  ℕ, ◌+◌, ◌-◌, ◌≤◌, ◌≡◌, refl, inl, inr, Bool, [], ◌∷◌, arith, leb, if◌then◌else◌, get_or,
  Bool-cases,
}
use smart_c_playground.Text.{Text, text_eq, text_eq_iff}
use smart_c_playground.Map.{
  Map, get, total, Distinct, Every, get-set, get-delete, set-Distinct, delete-Distinct, set-Every,
  delete-Every,
}
use smart_c_playground.Manager.State.{Session, Manager}
use smart_c_playground.Manager.Quota.{
  increment_count, decrement_count, count_sessions, count_by_visitor, count_by_ip,
}

-- counts.get(key) ?? 0
abbrev pub count_of : Map ℕ → Text → ℕ
count_of counts key = get_or (get counts key) 0

abbrev pub IsPositive : Text → ℕ → Type 0
IsPositive key n = 1 ≤ n

pub count_of-increment :
    (counts : Map ℕ) (key j : Text)
    → count_of (increment_count counts key) j ≡ (if text_eq key j then 1 else 0) + count_of counts j
unfolding increment_count
count_of-increment counts key j =
    rw (get-set counts key j (count_of counts key + 1)) (elim (Bool-cases (text_eq key j)) [
      | inl e ↦ ground (arith, text_eq_iff key j)
      | inr e ↦ rw e (omega arith)
    ])

pub count_of-decrement :
    (counts : Map ℕ) (key j : Text)
    → Distinct counts
    → 1 ≤ count_of counts key
    → (if text_eq key j then 1 else 0) + count_of (decrement_count counts key) j ≡ count_of counts j
unfolding decrement_count
count_of-decrement counts key j d h = ground (
  arith,
  get-set counts key j (get_or (get counts key) 1 - 1),
  get-delete counts key j d,
  text_eq_iff key j,
)

pub increment-Distinct :
    (counts : Map ℕ) (key : Text) → Distinct counts → Distinct (increment_count counts key)
unfolding increment_count
increment-Distinct counts key d = set-Distinct counts key _ d

pub decrement-Distinct :
    (counts : Map ℕ) (key : Text) → Distinct counts → Distinct (decrement_count counts key)
unfolding decrement_count
decrement-Distinct counts key d =
    ground (
      arith,
      set-Distinct counts key (get_or (get counts key) 1 - 1) d,
      delete-Distinct counts key d,
    )

pub increment-Every :
    (counts : Map ℕ) (key : Text)
    → Every IsPositive counts
    → Every IsPositive (increment_count counts key)
unfolding increment_count
increment-Every counts key p = set-Every IsPositive counts key _ (omega arith) p

pub decrement-Every :
    (counts : Map ℕ) (key : Text)
    → Every IsPositive counts
    → Every IsPositive (decrement_count counts key)
unfolding decrement_count
decrement-Every counts key p = elim (Bool-cases (leb (get_or (get counts key) 1 - 1) 0)) [
  | inl e ↦ rw e (delete-Every IsPositive counts key p)
  | inr e ↦ rw e (set-Every IsPositive counts key _ (ground arith) p)
]

-- Sessions are counted as the sum of an indicator over the map.
count_sessions-total :
    (sessions : Map Session) (p : Session → Bool)
    → count_sessions sessions p ≡ total (λ s. if p s then 1 else 0) sessions
unfolding count_sessions total
count_sessions-total [] p = refl
count_sessions-total ((id, s) ∷ rest) p = omega (arith, count_sessions-total rest p)

pub count_by_visitor-total :
    (m : Manager) (v : Text)
    → count_by_visitor m v ≡ total (λ s. if text_eq s.visitor_id v then 1 else 0) m.sessions
unfolding count_by_visitor
count_by_visitor-total m v = count_sessions-total m.sessions _

pub count_by_ip-total :
    (m : Manager) (ip : Text)
    → count_by_ip m ip ≡ total (λ s. if text_eq s.client_ip ip then 1 else 0) m.sessions
unfolding count_by_ip
count_by_ip-total m ip = count_sessions-total m.sessions _
