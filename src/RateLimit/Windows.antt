-- ===== src/RateLimit/Windows.antt =====
-- How many requests of a key apps/web/lib/server/rate-limit.ts allows in one window.
use smart_c_playground.Prelude.{
  ℕ, suc, ◌+◌, ◌%◌, ◌<◌, ◌≡◌, refl, ap, ◌∙◌, sym, subst, inl, inr, min, Bool, true, false, not,
  ◌&&◌, ◌||◌, some, List, [], ◌∷◌, arith, leb, ◌==◌, if◌then◌else◌, if_cases, is_some, Bool-cases,
}
use smart_c_playground.Text.{Text, text_eq, text_eq_iff, text_eq_refl}
use smart_c_playground.Map.{Map, get, size, get-set}
use smart_c_playground.RateLimit.{
  Rule, Outcome, Entry, Limiter, max_rate_limit_entries, cleanup_interval, cleanup_expired_entries,
  current_entry, tidy, outcome_of, consume_rate_limit,
}

-- A request: a rule and its time.
abbrev pub Request : Type 0
Request = Rule × ℕ

-- The requests for a key, and how many of them are allowed.
pub requests_of : Text → List Request → ℕ
requests_of key [] = 0
requests_of key ((rule, now) ∷ rest) =
    (if text_eq rule.key key then 1 else 0) + requests_of key rest

pub allowed_of : Text → Limiter → List Request → ℕ
allowed_of key l [] = 0
allowed_of key l ((rule, now) ∷ rest) =
    let (next, outcome) = consume_rate_limit l rule now in
    (if text_eq rule.key key && outcome.allowed then 1 else 0) + allowed_of key next rest

-- The requests come before the window ends, and those for the key have its limit.
abbrev pub AreIn : Text → (limit reset_at : ℕ) → List Request → Type 0
AreIn key limit reset_at [] = Unit
AreIn key limit reset_at ((rule, now) ∷ rest) =
    (now < reset_at) × (rule.key ≡ key → rule.limit ≡ limit) × AreIn key limit reset_at rest

-- The cleanup keeps an entry whose window has not ended.
get-cleanup_expired_entries :
    (store : Map Entry) (now : ℕ) (key : Text) (entry : Entry)
    → get store key ≡ some entry
    → now < entry.reset_at
    → get (cleanup_expired_entries store now) key ≡ some entry
unfolding get cleanup_expired_entries
get-cleanup_expired_entries [] now key entry e h = cc
get-cleanup_expired_entries ((k, other) ∷ rest) now key entry e h =
    ground (arith, get-cleanup_expired_entries rest now key entry)

pub get-tidy :
    (l : Limiter) (now : ℕ) (key : Text) (entry : Entry)
    → get l.store key ≡ some entry
    → now < entry.reset_at
    → get (tidy l now) key ≡ some entry
unfolding tidy
get-tidy l now key entry e h =
    if_cases (λ (s : Map Entry). get s key ≡ some entry)
      (suc l.operation_count % cleanup_interval == 0 || leb max_rate_limit_entries (size l.store))
      (λ _. get-cleanup_expired_entries l.store now key entry e h) (λ _. e)

abbrev counted : Entry → Entry
counted entry = record entry { count = suc entry.count }

-- A request for the key counts in its window.
consume_same :
    (l : Limiter) (rule : Rule) (now : ℕ) (entry : Entry)
    → get l.store rule.key ≡ some entry
    → now < entry.reset_at
    → (get (consume_rate_limit l rule now).0.store rule.key ≡ some (counted entry))
      × ((consume_rate_limit l rule now).1.allowed ≡ leb (suc entry.count) rule.limit)
unfolding consume_rate_limit current_entry outcome_of
consume_same l rule now entry e h =
    let f = get-tidy l now rule.key entry e h in
    let lasts : leb entry.reset_at now ≡ false = ground (arith, h) in
    rw (f, lasts, consume_rate_limit)
      (get-set (tidy l now) rule.key rule.key _ ∙ rw (text_eq_refl rule.key) refl, refl)

-- A request for another key does not.
consume_other :
    (l : Limiter) (rule : Rule) (now : ℕ) (key : Text) (entry : Entry)
    → get l.store key ≡ some entry
    → now < entry.reset_at
    → text_eq rule.key key ≡ false
    → get (consume_rate_limit l rule now).0.store key ≡ some entry
unfolding consume_rate_limit
consume_other l rule now key entry e h other =
    if_cases (λ (r : Limiter × Outcome). get r.0.store key ≡ some entry)
      (not (is_some (get (tidy l now) rule.key)) && leb max_rate_limit_entries (size (tidy l now)))
      (λ _. get-tidy l now key entry e h)
      (λ _.
        get-set (tidy l now) rule.key key
          (counted (current_entry (get (tidy l now) rule.key) rule now))
        ∙ ap
            (λ b.
              if b
              then some (counted (current_entry (get (tidy l now) rule.key) rule now))
              else get (tidy l now) key)
            other
        ∙ get-tidy l now key entry e h)

-- One request more.
count_one :
    (allowed same : Bool) (limit rule_limit count allowed_rest requests_rest : ℕ)
    → same ≡ true
    → rule_limit ≡ limit
    → allowed ≡ leb (suc count) rule_limit
    → allowed_rest + min limit (suc count) ≡ min limit (suc count + requests_rest)
    → (if same && allowed then 1 else 0) + allowed_rest + min limit count
      ≡ min limit (count + ((if same then 1 else 0) + requests_rest))
count_one allowed same limit rule_limit count allowed_rest requests_rest s l a h = ground arith

-- If the store has an entry for a key, all the requests come before its window ends and those for
-- the key have one limit, then the number of requests for the key that are allowed is min(limit,
-- count + requests) - min(limit, count), whatever other keys are used in between.
pub allowed_in_window :
    (key : Text) (limit : ℕ) (requests : List Request) (l : Limiter) (entry : Entry)
    → get l.store key ≡ some entry
    → AreIn key limit entry.reset_at requests
    → allowed_of key l requests + min limit entry.count
      ≡ min limit (entry.count + requests_of key requests)
unfolding allowed_of requests_of
allowed_in_window key limit [] l entry e h = omega arith
allowed_in_window key limit ((rule, now) ∷ rest) l entry e (early, same_limit, later) =
    elim (Bool-cases (text_eq rule.key key)) [
      | inl same ↦
          let is_it = (text_eq_iff rule.key key).0 same in
          let (kept, verdict) =
            consume_same l rule now entry (subst (λ k. get l.store k ≡ some entry) (sym is_it) e)
              early in
          let next = (consume_rate_limit l rule now).0 in
          let rest_allowed =
            allowed_in_window key limit rest next (counted entry)
              (subst (λ k. get next.store k ≡ some (counted entry)) is_it kept) later in
          count_one (consume_rate_limit l rule now).1.allowed (text_eq rule.key key) limit
            rule.limit entry.count (allowed_of key next rest) (requests_of key rest) same
            (same_limit is_it) verdict rest_allowed
      | inr other ↦
          let next = (consume_rate_limit l rule now).0 in
          rw other (
            omega (
              arith,
              allowed_in_window key limit rest next entry
                  (consume_other l rule now key entry e early other) later,
            ))
    ]
