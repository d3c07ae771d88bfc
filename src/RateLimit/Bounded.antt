-- ===== src/RateLimit/Bounded.antt =====
-- The store of apps/web/lib/server/rate-limit.ts has at most MAX_RATE_LIMIT_ENTRIES entries.
use smart_c_playground.Prelude.{
  ℕ, suc, ◌%◌, ◌≤◌, ◌≡◌, false, not, ◌&&◌, ◌||◌, none, List, [], ◌∷◌, arith, leb, ◌==◌, inl, inr,
  if_cases, is_some, Option-cases,
}
use smart_c_playground.Text.{Text}
use smart_c_playground.Map.{Map, get, set, size, total, total-set_new, total-set_old}
use smart_c_playground.RateLimit.{
  Rule, Outcome, Entry, Limiter, max_rate_limit_entries, cleanup_interval, cleanup_expired_entries,
  current_entry, tidy, consume_rate_limit, consume_each, consume_rate_limits,
}

abbrev pub IsBounded : Limiter → Type 0
IsBounded l = size l.store ≤ max_rate_limit_entries

pub size-cleanup_expired_entries :
    (store : Map Entry) (now : ℕ) → size (cleanup_expired_entries store now) ≤ size store
unfolding cleanup_expired_entries total
size-cleanup_expired_entries [] now = omega arith
size-cleanup_expired_entries ((key, entry) ∷ rest) now =
    ground (arith, size-cleanup_expired_entries rest now)

pub size-tidy : (l : Limiter) (now : ℕ) → size (tidy l now) ≤ size l.store
unfolding tidy
size-tidy l now =
    if_cases (λ (s : Map Entry). size s ≤ size l.store)
      (suc l.operation_count % cleanup_interval == 0 || leb max_rate_limit_entries (size l.store))
      (λ _. size-cleanup_expired_entries l.store now) (λ _. omega arith)

new_bounded :
    (store : Map Entry) (key : Text) (entry : Entry)
    → get store key ≡ none
    → leb max_rate_limit_entries (size store) ≡ false
    → size (set store key entry) ≤ max_rate_limit_entries
new_bounded store key entry e f = ground (arith, total-set_new (λ _. 1) store key entry e)

pub consume_rate_limit-IsBounded :
    (l : Limiter) (rule : Rule) (now : ℕ)
    → IsBounded l
    → IsBounded (consume_rate_limit l rule now).0
unfolding consume_rate_limit
consume_rate_limit-IsBounded l rule now h =
    if_cases (λ (r : Limiter × Outcome). IsBounded r.0)
      (not (is_some (get (tidy l now) rule.key)) && leb max_rate_limit_entries (size (tidy l now)))
      (λ _. omega (arith, size-tidy l now, h))
      (λ f. elim (Option-cases (get (tidy l now) rule.key)) [
        | inl e ↦
            new_bounded (tidy l now) rule.key
              (record (current_entry (get (tidy l now) rule.key) rule now) {
                count = suc (current_entry (get (tidy l now) rule.key) rule now).count;
              })
              e (ground (arith, rw e at f))
        | inr (entry, e) ↦
            omega
              (arith, size-tidy l now, h, total-set_old (λ _. 1) (tidy l now) rule.key _ entry e)
      ])

consume_each-IsBounded :
    (rules : List Rule) (l : Limiter) (now : ℕ)
    → IsBounded l
    → IsBounded (consume_each l rules now).0
unfolding consume_each
consume_each-IsBounded [] l now h = h
consume_each-IsBounded (rule ∷ rules) l now h =
    consume_each-IsBounded rules (consume_rate_limit l rule now).0 now
      (consume_rate_limit-IsBounded l rule now h)

-- If the store has at most 10000 entries, it has at most 10000 after `consume_rate_limits`,
-- whatever the rules and the time.
pub consume_rate_limits-IsBounded :
    (l : Limiter) (rules : List Rule) (now : ℕ)
    → IsBounded l
    → IsBounded (consume_rate_limits l rules now).0
unfolding consume_rate_limits
consume_rate_limits-IsBounded l rules now h = consume_each-IsBounded rules l now h
