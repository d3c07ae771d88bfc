-- ===== src/App/Identifiers.antt =====
-- The identifiers that apps/web/lib/server sends, at isBoundedString of apps/lsp/src/app.ts.
use smart_c_playground.Prelude.{
  ℕ, zero, suc, ◌≤◌, ◌≡◌, refl, true, false, some, [], ◌∷◌, arith, length, take, length-take,
}
use smart_c_playground.Text.{Text, codes, includes, before_unit, trim_start, trim_end, trim}
use smart_c_playground.Web.Http.{get_client_ip, or_unknown}
use smart_c_playground.Web.Identity.{are_id_units, is_visitor_id}
use smart_c_playground.App.{visitor_id_max_length, client_ip_max_length, is_bounded}

-- Units that no HTTP header and no identifier holds: NUL, CR and LF.
abbrev pub IsClean : Text → Type 0
IsClean text = (includes text 0 ≡ false) × (includes text 13 ≡ false) × (includes text 10 ≡ false)

includes-take :
    (n : ℕ) (text : Text) (u : ℕ) → includes text u ≡ false → includes (take n text) u ≡ false
unfolding includes
includes-take zero text u h = refl
includes-take (suc n) [] u h = refl
includes-take (suc n) (a ∷ text) u h = ground (arith, includes-take n text u)

includes-before_unit :
    (text : Text) (v u : ℕ) → includes text u ≡ false → includes (before_unit text v) u ≡ false
unfolding includes before_unit
includes-before_unit [] v u h = refl
includes-before_unit (a ∷ text) v u h = ground (arith, includes-before_unit text v u)

includes-trim_start :
    (text : Text) (u : ℕ) → includes text u ≡ false → includes (trim_start text) u ≡ false
unfolding includes trim_start
includes-trim_start [] u h = refl
includes-trim_start (a ∷ text) u h = ground (arith, includes-trim_start text u)

includes-trim_end :
    (text : Text) (u : ℕ) → includes text u ≡ false → includes (trim_end text) u ≡ false
unfolding includes trim_end
includes-trim_end [] u h = refl
includes-trim_end (a ∷ text) u h = ground (arith, includes-trim_end text u)

includes-trim : (text : Text) (u : ℕ) → includes text u ≡ false → includes (trim text) u ≡ false
unfolding trim
includes-trim text u h = includes-trim_end (trim_start text) u (includes-trim_start text u h)

or_unknown-is_bounded :
    (text : Text)
    → length text ≤ 128
    → IsClean text
    → is_bounded (or_unknown text) client_ip_max_length ≡ true
unfolding is_bounded includes codes
or_unknown-is_bounded [] n c = refl
or_unknown-is_bounded (u ∷ text) n c = ground (arith, n, c)

pub get_client_ip-is_bounded :
    (forwarded : Text)
    → IsClean forwarded
    → is_bounded (get_client_ip (some forwarded)) client_ip_max_length ≡ true
unfolding get_client_ip
get_client_ip-is_bounded forwarded c =
    let trimmed = trim (before_unit forwarded 44) in
    let clean : (u : ℕ) → includes forwarded u ≡ false → includes (take 128 trimmed) u ≡ false =
      λ u h.
        includes-take 128 trimmed u
          (includes-trim (before_unit forwarded 44) u (includes-before_unit forwarded 44 u h)) in
    or_unknown-is_bounded (take 128 trimmed) (omega (arith, length-take 128 trimmed))
      (clean 0 c.0, clean 13 c.1, clean 10 c.2)

are_id_units-IsClean : (text : Text) → are_id_units text ≡ true → IsClean text
unfolding are_id_units includes
are_id_units-IsClean [] h = (refl, refl, refl)
are_id_units-IsClean (u ∷ text) h = ground (arith, h, are_id_units-IsClean text)

pub is_visitor_id-is_bounded :
    (text : Text) → is_visitor_id text ≡ true → is_bounded text visitor_id_max_length ≡ true
unfolding is_visitor_id is_bounded
is_visitor_id-is_bounded text h = ground (arith, h, are_id_units-IsClean text)
