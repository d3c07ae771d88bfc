-- ===== src/Guard/Uris/Complete.antt =====
-- Which messages hasUnexpectedUri lets through: the clean ones within its two limits.
use smart_c_playground.Prelude.{
  ℕ, zero, suc, ◌+◌, ◌≤◌, ◌<◌, ◌≡◌, refl, false, Option, some, List, [], ◌∷◌, max, arith, ltb,
  if◌then◌else◌, All,
}
use smart_c_playground.Text.{Text, text_eq_iff}
use smart_c_playground.Json.{
  Json, null, bool, num, str, arr, obj, Items, nil, cons, Fields, end, field, items,
}
use smart_c_playground.Guard.Uris.{
  Entry, is_unexpected, is_container, push_items, push_container, visit_fields, visit, round, scan,
  has_unexpected_uri, max_json_nodes, max_json_depth,
}
use smart_c_playground.Guard.Uris.Clean.{IsExpected, IsClean, AreCleanItems, AreCleanFields}

-- How many entries a value puts on the stack, itself included.
unfoldable mutual
  pub nodes : Json → ℕ
  nodes null = 1
  nodes (bool b) = 1
  nodes (num n) = 1
  nodes (str s) = 1
  nodes (arr vs) = suc (nodes_items vs)
  nodes (obj fs) = suc (nodes_fields fs)

  pub nodes_items : Items → ℕ
  nodes_items nil = 0
  nodes_items (cons v vs) = nodes v + nodes_items vs

  pub nodes_fields : Fields → ℕ
  nodes_fields end = 0
  nodes_fields (field k v rest) = (if is_container v then nodes v else 0) + nodes_fields rest

-- How far below a value its deepest entry lies.
unfoldable mutual
  pub height : Json → ℕ
  height null = 0
  height (bool b) = 0
  height (num n) = 0
  height (str s) = 0
  height (arr vs) = height_items vs
  height (obj fs) = height_fields fs

  pub height_items : Items → ℕ
  height_items nil = 0
  height_items (cons v vs) = max (suc (height v)) (height_items vs)

  pub height_fields : Fields → ℕ
  height_fields end = 0
  height_fields (field k v rest) =
      max (if is_container v then suc (height v) else 0) (height_fields rest)

nodes_pos : (v : Json) → 0 < nodes v
unfolding nodes
nodes_pos null = omega arith
nodes_pos (bool b) = omega arith
nodes_pos (num n) = omega arith
nodes_pos (str s) = omega arith
nodes_pos (arr vs) = omega arith
nodes_pos (obj fs) = omega arith

module _ (uris : List Text) (workspace : Text) where
  -- The entry passes, and so will all below it.
  abbrev Passes : Entry → Type 0
  Passes e = IsClean uris workspace e.value × (e.depth + height e.value ≤ max_json_depth)

  abbrev work : List Entry → ℕ
  work [] = 0
  work (e ∷ pending) = nodes e.value + work pending

  IsExpected-is_unexpected :
      (k : Text) (v : Json)
      → IsExpected uris workspace k v
      → is_unexpected uris workspace k v ≡ false
  unfolding is_unexpected
  IsExpected-is_unexpected k (str s) h = ground (arith, text_eq_iff s workspace)
  IsExpected-is_unexpected k null h = refl
  IsExpected-is_unexpected k (bool b) h = refl
  IsExpected-is_unexpected k (num n) h = refl
  IsExpected-is_unexpected k (arr vs) h = refl
  IsExpected-is_unexpected k (obj fs) h = refl

  push_items-Passes :
      (depth : ℕ) (vs : Items) (pending : List Entry)
      → AreCleanItems uris workspace vs
      → depth + height_items vs ≤ max_json_depth
      → All Passes pending
      → All Passes (push_items depth (items vs) pending)
        × (work (push_items depth (items vs) pending) ≡ nodes_items vs + work pending)
  unfolding height_items nodes_items
  push_items-Passes depth nil pending c d p = (p, omega arith)
  push_items-Passes depth (cons v vs) pending (c, cs) d p =
      let (all, count) =
        push_items-Passes depth vs (record { depth = depth + 1; value = v } ∷ pending) cs
          (omega arith) ((c, omega arith), p) in
      (all, omega arith)

  push_container-Passes :
      (depth : ℕ) (v : Json) (pending : List Entry)
      → IsClean uris workspace v
      → depth + (if is_container v then suc (height v) else 0) ≤ max_json_depth
      → All Passes pending
      → All Passes (push_container depth v pending)
        × (work (push_container depth v pending)
            ≡ (if is_container v then nodes v else 0) + work pending)
  push_container-Passes depth null pending c d p = (p, omega arith)
  push_container-Passes depth (bool b) pending c d p = (p, omega arith)
  push_container-Passes depth (num n) pending c d p = (p, omega arith)
  push_container-Passes depth (str s) pending c d p = (p, omega arith)
  push_container-Passes depth (arr vs) pending c d p = (((c, omega arith), p), refl)
  push_container-Passes depth (obj fs) pending c d p = (((c, omega arith), p), refl)

  -- What a round leaves on the stack.
  abbrev Leaves : ℕ → Option (List Entry) → Type 0
  Leaves n r = (next : List Entry) × (r ≡ some next) × All Passes next × (work next ≡ n)

  visit_fields-Passes :
      (depth : ℕ) (fs : Fields) (pending : List Entry)
      → AreCleanFields uris workspace fs
      → depth + height_fields fs ≤ max_json_depth
      → All Passes pending
      → Leaves (nodes_fields fs + work pending) (visit_fields uris workspace depth fs pending)
  unfolding visit_fields height_fields nodes_fields
  visit_fields-Passes depth end pending c d p = (pending, refl, p, omega arith)
  visit_fields-Passes depth (field k v rest) pending (x, c, cs) d p =
      let (here, count) = push_container-Passes depth v pending c (omega arith) p in
      let (next, r, all, total) =
        visit_fields-Passes depth rest (push_container depth v pending) cs (omega arith) here in
      (next, rw (IsExpected-is_unexpected k v x) r, all, omega arith)

  visit-Passes :
      (depth : ℕ) (v : Json) (pending : List Entry)
      → IsClean uris workspace v
      → depth + height v ≤ max_json_depth
      → All Passes pending
      → (next : List Entry) × (visit uris workspace depth v pending ≡ some next)
        × All Passes next
        × (suc (work next) ≡ nodes v + work pending)
  unfolding visit height nodes
  visit-Passes depth null pending c d p = (pending, refl, p, omega arith)
  visit-Passes depth (bool b) pending c d p = (pending, refl, p, omega arith)
  visit-Passes depth (num n) pending c d p = (pending, refl, p, omega arith)
  visit-Passes depth (str s) pending c d p = (pending, refl, p, omega arith)
  visit-Passes depth (arr vs) pending c d p =
      let (all, count) = push_items-Passes depth vs pending c d p in
      (push_items depth (items vs) pending, refl, all, omega arith)
  visit-Passes depth (obj fs) pending c d p =
      let (next, r, all, count) = visit_fields-Passes depth fs pending c d p in
      (next, r, all, omega arith)

  round-Passes :
      (e : Entry) (pending : List Entry)
      → Passes e
      → All Passes pending
      → (next : List Entry) × (round uris workspace e pending ≡ some next)
        × All Passes next
        × (suc (work next) ≡ nodes e.value + work pending)
  unfolding round
  round-Passes e pending (c, d) p =
      let (next, r, all, count) = visit-Passes e.depth e.value pending c d p in
      (next, rw (shallow, r), all, count)
    where
      shallow : ltb max_json_depth e.depth ≡ false
      shallow = ground arith

  scan-Passes :
      (left : ℕ) (pending : List Entry)
      → All Passes pending
      → work pending ≤ left
      → scan uris workspace left pending ≡ false
  unfolding scan
  scan-Passes zero [] p h = refl
  scan-Passes zero (e ∷ pending) p h = absurd (omega (arith, nodes_pos e.value))
  scan-Passes (suc left) [] p h = refl
  scan-Passes (suc left) (e ∷ pending) (pe, p) h =
      let (next, r, all, count) = round-Passes e pending pe p in
      rw (r, scan) (scan-Passes left next all (omega arith))

  -- An object in which every string under a URI name is a URI of the session passes
  -- `has_unexpected_uri`, if it has at most 16384 nodes and is at most 64 deep.
  pub IsClean-has_unexpected_uri :
      (fs : Fields)
      → IsClean uris workspace (obj fs)
      → nodes (obj fs) ≤ max_json_nodes
      → height (obj fs) ≤ max_json_depth
      → has_unexpected_uri uris workspace fs ≡ false
  IsClean-has_unexpected_uri fs c n d =
      let e : scan uris workspace max_json_nodes (record { depth = 0; value = obj fs } ∷ [])
          ≡ false =
        scan-Passes max_json_nodes _ ((c, omega arith), tt) (omega arith) in
      unfold has_unexpected_uri in e
