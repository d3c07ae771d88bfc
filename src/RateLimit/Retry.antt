-- ===== src/RateLimit/Retry.antt =====
-- The wait that apps/web/lib/server/rate-limit.ts asks for when it refuses.
use mathlib.Core.Option.{some_inj}
use smart_c_playground.Prelude.{
  ℕ, suc, ◌+◌, ◌-◌, ◌*◌, ◌%◌, ◌≤◌, ◌<◌, ◌≡◌, ◌⊎◌, refl, ap, ◌∙◌, subst, inl, inr, Bool, true, false,
  not, ◌&&◌, ◌||◌, none, some, [], ◌∷◌, arith, leb, ◌==◌, if◌then◌else◌, if_cases, is_some,
  Bool-cases,
}
use smart_c_playground.Text.{Text, text_eq, text_eq_iff, text_eq_refl}
use smart_c_playground.Map.{Map, get, size, total, Distinct, get-set, set-Distinct}
use smart_c_playground.RateLimit.{
  Rule, Outcome, Entry, Limiter, max_rate_limit_entries, cleanup_interval, cleanup_expired_entries,
  seconds, current_entry, tidy, outcome_of, consume_rate_limit,
}
use smart_c_playground.RateLimit.Bounded.{
  IsBounded, size-cleanup_expired_entries, consume_rate_limit-IsBounded,
}

absent-cleanup :
    (store : Map Entry) (now : ℕ) (key : Text)
    → get store key ≡ none
    → get (cleanup_expired_entries store now) key ≡ none
unfolding get cleanup_expired_entries
absent-cleanup [] now key h = refl
absent-cleanup ((k, entry) ∷ rest) now key h = ground (arith, absent-cleanup rest now key)

cleanup-Distinct :
    (store : Map Entry) (now : ℕ) → Distinct store → Distinct (cleanup_expired_entries store now)
unfolding cleanup_expired_entries
cleanup-Distinct [] now d = tt
cleanup-Distinct ((k, entry) ∷ rest) now (fresh, d) =
    if_cases (λ (s : Map Entry). Distinct s) (leb entry.reset_at now)
      (λ _. cleanup-Distinct rest now d)
      (λ _. (absent-cleanup rest now k fresh, cleanup-Distinct rest now d))

-- An entry whose window has ended is removed, and makes room.
expired-cleanup :
    (store : Map Entry) (now : ℕ) (key : Text) (entry : Entry)
    → Distinct store
    → get store key ≡ some entry
    → entry.reset_at ≤ now
    → (get (cleanup_expired_entries store now) key ≡ none)
      × (size (cleanup_expired_entries store now) < size store)
unfolding get cleanup_expired_entries total
expired-cleanup [] now key entry d e h = cc
expired-cleanup ((k, other) ∷ rest) now key entry (fresh, d) e h =
    elim (Bool-cases (text_eq k key)) [
      | inl same ↦
          let is_it : other ≡ entry = some_inj.0 (rw same at e) in
          let found : k ≡ key = (text_eq_iff k key).0 same in
          if_cases (λ (s : Map Entry). (get s key ≡ none) × (size s < 1 + total (λ _. 1) rest))
            (leb other.reset_at now)
            (λ _. (
              absent-cleanup rest now key (subst (λ j. get rest j ≡ none) found fresh),
              omega (arith, size-cleanup_expired_entries rest now),
            ))
            (λ c. ground (arith, c, ap (λ (x : Entry). x.reset_at) is_it, h))
      | inr different ↦
          let (gone, less) = expired-cleanup rest now key entry d (rw different at e) h in
          if_cases (λ (s : Map Entry). (get s key ≡ none) × (size s < 1 + total (λ _. 1) rest))
            (leb other.reset_at now) (λ _. (gone, omega (arith, less)))
            (λ _. (rw different gone, omega (arith, less)))
    ]

tidy-Distinct : (l : Limiter) (now : ℕ) → Distinct l.store → Distinct (tidy l now)
unfolding tidy
tidy-Distinct l now d =
    if_cases (λ (s : Map Entry). Distinct s)
      (suc l.operation_count % cleanup_interval == 0 || leb max_rate_limit_entries (size l.store))
      (λ _. cleanup-Distinct l.store now d) (λ _. d)

-- After the tidying of an operation an ended window is there as it was, or has made room.
tidy-cases :
    (l : Limiter) (now : ℕ) (key : Text) (entry : Entry)
    → Distinct l.store
    → get l.store key ≡ some entry
    → entry.reset_at ≤ now
    → (get (tidy l now) key ≡ some entry)
      ⊎ ((get (tidy l now) key ≡ none) × (size (tidy l now) < size l.store))
unfolding tidy
tidy-cases l now key entry d e h =
    if_cases
      (λ (s : Map Entry). (get s key ≡ some entry) ⊎ ((get s key ≡ none) × (size s < size l.store)))
      (suc l.operation_count % cleanup_interval == 0 || leb max_rate_limit_entries (size l.store))
      (λ _. inr (expired-cleanup l.store now key entry d e h)) (λ _. inl e)

-- A request whose window has ended is allowed.
ended-allowed :
    (l : Limiter) (rule : Rule) (now : ℕ) (entry : Entry)
    → IsBounded l
    → Distinct l.store
    → get l.store rule.key ≡ some entry
    → entry.reset_at ≤ now
    → 1 ≤ rule.limit
    → (consume_rate_limit l rule now).1.allowed ≡ true
unfolding consume_rate_limit current_entry outcome_of
ended-allowed l rule now entry b d e h one = elim (tidy-cases l now rule.key entry d e h) [
  | inl f ↦
      let ended : leb entry.reset_at now ≡ true = ground (arith, h) in
      rw (f, ended, consume_rate_limit) (ground (arith, one))
  | inr (f, less) ↦
      let room : leb max_rate_limit_entries (size (tidy l now)) ≡ false = ground (arith, b, less) in
      rw (f, room, consume_rate_limit) (ground (arith, one))
]

-- A refusal that leaves an entry has counted in it, and says how long its window lasts.
refused-entry :
    (l : Limiter) (rule : Rule) (now : ℕ)
    → (consume_rate_limit l rule now).1.allowed ≡ false
    → is_some (get (consume_rate_limit l rule now).0.store rule.key) ≡ true
    → (entry : Entry) × (get (consume_rate_limit l rule now).0.store rule.key ≡ some entry)
      × ((consume_rate_limit l rule now).1.retry_after_seconds ≡ seconds (entry.reset_at - now))
unfolding consume_rate_limit current_entry outcome_of
refused-entry l rule now =
    let found = current_entry (get (tidy l now) rule.key) rule now in
    let entry : Entry = record found { count = suc found.count } in
    if_cases Refused
      (not (is_some (get (tidy l now) rule.key)) && leb max_rate_limit_entries (size (tidy l now)))
      (λ full denied there. ground (arith, full, there))
      (λ _ denied there. (
        entry,
        get-set (tidy l now) rule.key rule.key entry ∙ rw (text_eq_refl rule.key) refl,
        waits (leb entry.count rule.limit) (seconds (entry.reset_at - now)) denied,
      ))
  where
    Refused : Limiter × Outcome → Type 0
    Refused r =
        r.1.allowed ≡ false
        → is_some (get r.0.store rule.key) ≡ true
        → (entry : Entry) × (get r.0.store rule.key ≡ some entry)
          × (r.1.retry_after_seconds ≡ seconds (entry.reset_at - now))

    waits : (allowed : Bool) (wait : ℕ) → allowed ≡ false → (if allowed then 0 else wait) ≡ wait
    waits true wait e = ground (arith, e)
    waits false wait e = refl

seconds-enough :
    (reset_at now later : ℕ) → now + 1000 * seconds (reset_at - now) ≤ later → reset_at ≤ later
unfolding seconds
seconds-enough reset_at now later h = omega (arith, h)

consume-Distinct :
    (l : Limiter) (rule : Rule) (now : ℕ)
    → Distinct l.store
    → Distinct (consume_rate_limit l rule now).0.store
unfolding consume_rate_limit
consume-Distinct l rule now d =
    if_cases (λ (r : Limiter × Outcome). Distinct r.0.store)
      (not (is_some (get (tidy l now) rule.key)) && leb max_rate_limit_entries (size (tidy l now)))
      (λ _. tidy-Distinct l now d)
      (λ _. set-Distinct (tidy l now) rule.key _ (tidy-Distinct l now d))

-- If the store has distinct keys and at most 10000 entries, the limit is 1 or more and a request is
-- refused by an entry of its key, then a request under the same rule is allowed once the seconds
-- that the refusal names have passed, if no other request comes in between.
pub retry_after-allowed :
    (l : Limiter) (rule : Rule) (now later : ℕ)
    → IsBounded l
    → Distinct l.store
    → 1 ≤ rule.limit
    → (consume_rate_limit l rule now).1.allowed ≡ false
    → is_some (get (consume_rate_limit l rule now).0.store rule.key) ≡ true
    → now + 1000 * (consume_rate_limit l rule now).1.retry_after_seconds ≤ later
    → (consume_rate_limit (consume_rate_limit l rule now).0 rule later).1.allowed ≡ true
retry_after-allowed l rule now later b d one denied there wait =
    let next = (consume_rate_limit l rule now).0 in
    let (entry, e, w) = refused-entry l rule now denied there in
    ended-allowed next rule later entry (consume_rate_limit-IsBounded l rule now b)
      (consume-Distinct l rule now d) e
      (seconds-enough entry.reset_at now later (subst (λ n. now + 1000 * n ≤ later) w wait)) one
