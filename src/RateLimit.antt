-- ===== src/RateLimit.antt =====
-- apps/web/lib/server/rate-limit.ts: fixed windows, one for each key. Times are milliseconds.
pub mod Windows
pub mod Bounded
pub mod Retry
use smart_c_playground.Prelude.{
  ℕ, suc, ◌+◌, ◌-◌, ◌/◌, ◌%◌, min, max, Bool, true, false, not, ◌&&◌, ◌||◌, Option, none, some,
  List, [], ◌∷◌, leb, ◌==◌, if◌then◌else◌, is_some,
}
use smart_c_playground.Text.{Text}
use smart_c_playground.Map.{Map, get, set, size}

-- RateLimitRule
pub record Rule : Type 0 where
  pub key : Text
  pub limit : ℕ
  pub window_ms : ℕ

-- RateLimitResult
pub record Outcome : Type 0 where
  pub allowed : Bool
  pub remaining : ℕ
  pub retry_after_seconds : ℕ

-- RateLimitEntry
pub record Entry : Type 0 where
  pub count : ℕ
  pub reset_at : ℕ

abbrev pub max_rate_limit_entries : ℕ
max_rate_limit_entries = 10000

abbrev pub cleanup_interval : ℕ
cleanup_interval = 256

-- The module's variables: operationCount and the store.
pub record Limiter : Type 0 where
  pub operation_count : ℕ
  pub store : Map Entry

-- resetRateLimitStore, and the state the module starts in.
abbrev pub reset : Limiter
reset = record { operation_count = 0; store = [] }

-- cleanupExpiredEntries
pub cleanup_expired_entries : Map Entry → ℕ → Map Entry
cleanup_expired_entries [] now = []
cleanup_expired_entries ((key, entry) ∷ rest) now =
    let kept = cleanup_expired_entries rest now in
    if leb entry.reset_at now then kept else (key, entry) ∷ kept

-- Math.max(1, Math.ceil(ms / 1_000))
pub seconds : ℕ → ℕ
seconds ms = max 1 ((ms + 999) / 1000)

-- The entry to count in: a new window begins where there is none, or it has ended.
pub current_entry : Option Entry → Rule → ℕ → Entry
current_entry none rule now = record { count = 0; reset_at = now + rule.window_ms }
current_entry (some entry) rule now =
    if leb entry.reset_at now then record { count = 0; reset_at = now + rule.window_ms } else entry

-- The store after the cleanup that this operation does, if it does one.
pub tidy : Limiter → ℕ → Map Entry
unfolding cleanup_expired_entries
tidy l now =
    if suc l.operation_count % cleanup_interval == 0 || leb max_rate_limit_entries (size l.store)
    then cleanup_expired_entries l.store now
    else l.store

-- The result of counting in an entry, whose count it already holds.
pub outcome_of : Entry → Rule → ℕ → Outcome
unfolding seconds
outcome_of entry rule now = record {
  allowed = leb entry.count rule.limit;
  remaining = rule.limit - entry.count;
  retry_after_seconds = if leb entry.count rule.limit then 0 else seconds (entry.reset_at - now);
}

-- consumeRateLimit
unfoldable pub consume_rate_limit : Limiter → Rule → ℕ → Limiter × Outcome
unfolding tidy current_entry outcome_of
consume_rate_limit l rule now =
    let store = tidy l now in
    let found = current_entry (get store rule.key) rule now in
    let entry : Entry = record found { count = suc found.count } in
    if not (is_some (get store rule.key)) && leb max_rate_limit_entries (size store)
    then (
      record { operation_count = suc l.operation_count; store = store },
      record { allowed = false; remaining = 0; retry_after_seconds = seconds rule.window_ms },
    )
    else (
      record { operation_count = suc l.operation_count; store = set store rule.key entry },
      outcome_of entry rule now,
    )

-- The rules in order, each on the state that the one before leaves.
pub consume_each : Limiter → List Rule → ℕ → Limiter × List Outcome
unfolding consume_rate_limit
consume_each l [] now = (l, [])
consume_each l (rule ∷ rules) now =
    let (next, outcome) = consume_rate_limit l rule now in
    let (last, outcomes) = consume_each next rules now in (last, outcome ∷ outcomes)

-- results.filter((result) => !result.allowed)
pub denied_of : List Outcome → List Outcome
denied_of [] = []
denied_of (outcome ∷ rest) =
    let denied = denied_of rest in if outcome.allowed then denied else outcome ∷ denied

-- Math.max(...) of the seconds to wait, of one result at least.
pub longest_wait : List Outcome → ℕ
longest_wait [] = 0
longest_wait (outcome ∷ rest) = max outcome.retry_after_seconds (longest_wait rest)

-- Math.min(...) of what remains, where `none` is Infinity: the minimum of no number.
pub least_remaining : List Outcome → Option ℕ
least_remaining [] = none
least_remaining (outcome ∷ rest) = elim (least_remaining rest) [
  | none ↦ some outcome.remaining
  | some r ↦ some (min outcome.remaining r)
]

-- What consumeRateLimits returns; `remaining` may be Infinity.
pub record Verdict : Type 0 where
  pub allowed : Bool
  pub remaining : Option ℕ
  pub retry_after_seconds : ℕ

pub verdict_of : List Outcome → Verdict
unfolding denied_of longest_wait least_remaining
verdict_of outcomes = elim (denied_of outcomes) [
  | [] ↦ record { allowed = true; remaining = least_remaining outcomes; retry_after_seconds = 0 }
  | outcome ∷ rest ↦ record {
    allowed = false;
    remaining = some 0;
    retry_after_seconds = longest_wait (outcome ∷ rest);
  }
]

-- consumeRateLimits
pub consume_rate_limits : Limiter → List Rule → ℕ → Limiter × Verdict
unfolding consume_each verdict_of
consume_rate_limits l rules now =
    let (last, outcomes) = consume_each l rules now in (last, verdict_of outcomes)
