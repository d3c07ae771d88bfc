-- ===== src/Manager/System/Quotas.antt =====
-- The three quotas hold in every reachable state, creations in progress included.
use smart_c_playground.Prelude.{
  ℕ, ◌+◌, ◌≤◌, ◌<◌, ◌≡◌, sym, ap, ◌∙◌, subst, inl, inr, none, some, arith, if◌then◌else◌,
  Bool-cases,
}
use smart_c_playground.Text.{Text, text_eq, text_eq_iff, text_eq_refl}
use smart_c_playground.Map.{
  Map, get, set, delete, total, size, Distinct, Every, total-set_new, total-delete, le-total_of_get,
}
use smart_c_playground.Manager.State.{ok, Request, Config, Manager}
use smart_c_playground.Manager.Quota.{
  increment_count, count_by_visitor, count_by_ip, reserve, release,
}
use smart_c_playground.Manager.Quota.Counters.{
  count_of, IsPositive, count_of-increment, count_of-decrement, increment-Distinct,
  decrement-Distinct, increment-Every, decrement-Every, count_by_visitor-total, count_by_ip-total,
}
use smart_c_playground.Manager.System.{System, with_manager}
use smart_c_playground.Manager.System.Owners.{of_visitor, of_ip, NoMore}

abbrev pub by_visitor : Text → Request → ℕ
by_visitor v request = if text_eq request.visitor_id v then 1 else 0

abbrev pub by_ip : Text → Request → ℕ
by_ip ip request = if text_eq request.client_ip ip then 1 else 0

-- The pending counters count the creations in progress.
pub record AreCounted (m : Manager) (creating : Map Request) : Type 0 where
  pub count : m.pending_count ≡ size creating
  pub visitors : (v : Text) → count_of m.pending_visitors v ≡ total (by_visitor v) creating
  pub ips : (ip : Text) → count_of m.pending_ips ip ≡ total (by_ip ip) creating
  pub visitors_distinct : Distinct m.pending_visitors
  pub ips_distinct : Distinct m.pending_ips
  pub visitors_positive : Every IsPositive m.pending_visitors
  pub ips_positive : Every IsPositive m.pending_ips

-- No quota is passed, where a creation in progress counts as a session.
pub record AreWithin (o : Config) (m : Manager) (creating : Map Request) : Type 0 where
  pub all : size m.sessions + size creating ≤ o.max_sessions
  pub of_one_visitor :
      (v : Text)
      → total (of_visitor v) m.sessions + total (by_visitor v) creating ≤ o.max_sessions_per_visitor
  pub of_one_ip :
      (ip : Text) → total (of_ip ip) m.sessions + total (by_ip ip) creating ≤ o.max_sessions_per_ip

pub record HoldsQuotas (o : Config) (s : System) : Type 0 where
  pub counted : AreCounted s.manager s.creating
  pub within : AreWithin o s.manager s.creating

-- What `reserve` checks before it reserves.
pub reserve-facts :
    (o : Config) (m reserved : Manager) (visitor_id client_ip : Text)
    → reserve o m visitor_id client_ip ≡ ok reserved
    → (size m.sessions + m.pending_count < o.max_sessions)
      × (count_by_visitor m visitor_id + count_of m.pending_visitors visitor_id
          < o.max_sessions_per_visitor)
      × (count_by_ip m client_ip + count_of m.pending_ips client_ip < o.max_sessions_per_ip)
      × (reserved ≡ record m {
        pending_count = m.pending_count + 1;
        pending_visitors = increment_count m.pending_visitors visitor_id;
        pending_ips = increment_count m.pending_ips client_ip;
      })
unfolding reserve
reserve-facts o m reserved visitor_id client_ip e =
    (ground arith, ground arith, ground arith, ground arith)

module _ (o : Config) where
  pub kept-HoldsQuotas :
      (s : System) (m : Manager)
      → NoMore s.manager m
      → HoldsQuotas o s
      → HoldsQuotas o (with_manager s m)
  kept-HoldsQuotas s m n h = record {
    counted = record {
      count = n.count ∙ h.counted.count;
      visitors = λ v. ap (λ c. count_of c v) n.visitors ∙ h.counted.visitors v;
      ips = λ ip. ap (λ c. count_of c ip) n.ips ∙ h.counted.ips ip;
      visitors_distinct = subst Distinct (sym n.visitors) h.counted.visitors_distinct;
      ips_distinct = subst Distinct (sym n.ips) h.counted.ips_distinct;
      visitors_positive = subst (Every IsPositive) (sym n.visitors) h.counted.visitors_positive;
      ips_positive = subst (Every IsPositive) (sym n.ips) h.counted.ips_positive;
    };
    within = record {
      all = omega (arith, n.fewer, h.within.all);
      of_one_visitor = λ v. omega (arith, n.fewer_of_visitor v, h.within.of_one_visitor v);
      of_one_ip = λ ip. omega (arith, n.fewer_of_ip ip, h.within.of_one_ip ip);
    };
  }

  -- Room that was checked for one owner is room for the one more that it gets.
  room_for_one :
      (f : Text → ℕ) (limit : ℕ) (key v : Text)
      → ((w : Text) → f w ≤ limit)
      → f key < limit
      → f v + (if text_eq key v then 1 else 0) ≤ limit
  room_for_one f limit key v all room = elim (Bool-cases (text_eq key v)) [
    | inl same ↦ rw same (subst (λ w. f w + 1 ≤ limit) ((text_eq_iff key v).0 same) (omega arith))
    | inr other ↦ rw other (omega (arith, all v))
  ]

  pub begun-HoldsQuotas :
      (s : System) (id : Text) (request : Request) (reserved : Manager)
      → get s.creating id ≡ none
      → reserve o s.manager request.visitor_id request.client_ip ≡ ok reserved
      → HoldsQuotas o s
      → HoldsQuotas o (record { manager = reserved; creating = set s.creating id request })
  begun-HoldsQuotas s id request reserved fresh e h =
      let m = s.manager in
      let (room, visitor_room, ip_room, made) =
        reserve-facts o m reserved request.visitor_id request.client_ip e in
      subst (λ n. HoldsQuotas o (record { manager = n; creating = set s.creating id request }))
        (sym made)
        (record {
          counted = record {
            count =
                omega (arith, h.counted.count, total-set_new (λ _. 1) s.creating id request fresh);
            visitors = λ v. omega (
              arith,
              count_of-increment m.pending_visitors request.visitor_id v,
              h.counted.visitors v,
              total-set_new (by_visitor v) s.creating id request fresh,
            );
            ips = λ ip. omega (
              arith,
              count_of-increment m.pending_ips request.client_ip ip,
              h.counted.ips ip,
              total-set_new (by_ip ip) s.creating id request fresh,
            );
            visitors_distinct =
                increment-Distinct m.pending_visitors request.visitor_id
                  h.counted.visitors_distinct;
            ips_distinct =
                increment-Distinct m.pending_ips request.client_ip h.counted.ips_distinct;
            visitors_positive =
                increment-Every m.pending_visitors request.visitor_id h.counted.visitors_positive;
            ips_positive = increment-Every m.pending_ips request.client_ip h.counted.ips_positive;
          };
          within = record {
            all =
                omega (
                  arith,
                  room,
                  h.counted.count,
                  total-set_new (λ _. 1) s.creating id request fresh,
                );
            of_one_visitor = λ v. omega (
              arith,
              total-set_new (by_visitor v) s.creating id request fresh,
              room_for_one (λ w. total (of_visitor w) m.sessions + total (by_visitor w) s.creating)
                  o.max_sessions_per_visitor request.visitor_id v h.within.of_one_visitor
                  (omega (
                    arith,
                    visitor_room,
                    count_by_visitor-total m request.visitor_id,
                    h.counted.visitors request.visitor_id,
                  )),
            );
            of_one_ip = λ ip. omega (
              arith,
              total-set_new (by_ip ip) s.creating id request fresh,
              room_for_one (λ w. total (of_ip w) m.sessions + total (by_ip w) s.creating)
                  o.max_sessions_per_ip request.client_ip ip h.within.of_one_ip
                  (omega (
                    arith,
                    ip_room,
                    count_by_ip-total m request.client_ip,
                    h.counted.ips request.client_ip,
                  )),
            );
          };
        })

  pub released-AreCounted :
      (m : Manager) (creating : Map Request) (id : Text) (request : Request)
      → get creating id ≡ some request
      → AreCounted m creating
      → AreCounted
          (release m (record { visitor_id = request.visitor_id; client_ip = request.client_ip }))
          (delete creating id)
  unfolding release
  released-AreCounted m creating id request e h =
      let visitor_counted : 1 ≤ count_of m.pending_visitors request.visitor_id = omega (
        arith,
        h.visitors request.visitor_id,
        le-total_of_get (by_visitor request.visitor_id) creating id request e,
        ap (λ b. if◌then◌else◌ {A = ℕ} b 1 0) (text_eq_refl request.visitor_id),
      ) in
      let ip_counted : 1 ≤ count_of m.pending_ips request.client_ip = omega (
        arith,
        h.ips request.client_ip,
        le-total_of_get (by_ip request.client_ip) creating id request e,
        ap (λ b. if◌then◌else◌ {A = ℕ} b 1 0) (text_eq_refl request.client_ip),
      ) in
      record {
        count = omega (arith, h.count, total-delete (λ _. 1) creating id request e);
        visitors = λ v. omega (
          arith,
          count_of-decrement m.pending_visitors request.visitor_id v h.visitors_distinct
              visitor_counted,
          h.visitors v,
          total-delete (by_visitor v) creating id request e,
        );
        ips = λ ip. omega (
          arith,
          count_of-decrement m.pending_ips request.client_ip ip h.ips_distinct ip_counted,
          h.ips ip,
          total-delete (by_ip ip) creating id request e,
        );
        visitors_distinct =
            decrement-Distinct m.pending_visitors request.visitor_id h.visitors_distinct;
        ips_distinct = decrement-Distinct m.pending_ips request.client_ip h.ips_distinct;
        visitors_positive =
            decrement-Every m.pending_visitors request.visitor_id h.visitors_positive;
        ips_positive = decrement-Every m.pending_ips request.client_ip h.ips_positive;
      }
