-- ===== src/App/Forwarded.antt =====
-- What apps/web/app/api/lsp/sessions/route.ts sends, at the checks of apps/lsp/src/app.ts.
use smart_c_playground.Prelude.{
  ℕ, ◌+◌, ◌≤◌, ◌≡◌, refl, sym, subst, true, Option, none, some, List, [], ◌∷◌, ◌++◌, arith, length,
  All,
}
use mathlib.Core.List.{append_assoc, append-nil}
use smart_c_playground.Text.{Text, codes, text_eq, has, includes, byte_length}
use smart_c_playground.Web.Http.{get_client_ip}
use smart_c_playground.Web.Identity.{is_visitor_id}
use smart_c_playground.App.Identifiers.{IsClean, get_client_ip-is_bounded, is_visitor_id-is_bounded}
use smart_c_playground.Json.{arr, items, prop}
use smart_c_playground.Contracts.{
  SourceFile, main_c, to_lower_case, valid_name, content_of, is_valid_source,
  is_valid_source_file_name, are_valid, is_valid_source_files,
}
use smart_c_playground.Validation.Accepted.{
  AreSafe, IsSafeFile, Unique, lower_names, bytes_of, Fresh, Fresh-append, no-Fresh,
}
use smart_c_playground.Web.Routes.{lsp_route, file_json, files_json}
use smart_c_playground.App.{
  visitor_id_max_length, client_ip_max_length, is_bounded, bounded_string, source_file,
  source_files, create_session_request,
}

valid_name-file_json :
    (file : SourceFile)
    → is_valid_source_file_name file.name ≡ true
    → valid_name (file_json file) ≡ some file.name
unfolding valid_name file_json prop codes text_eq
valid_name-file_json file h = rw h refl

content_of-file_json : (file : SourceFile) → content_of (file_json file) ≡ some file.content
unfolding content_of file_json prop codes text_eq
content_of-file_json file = refl

length-files_json : (files : List SourceFile) → length (items (files_json files)) ≡ length files
unfolding files_json
length-files_json [] = refl
length-files_json (file ∷ files) = omega (arith, length-files_json files)

are_valid-files_json :
    (files : List SourceFile) (names : List Text) (total : ℕ)
    → All IsSafeFile files
    → Unique (lower_names files)
    → Fresh names (lower_names files)
    → has (names ++ lower_names files) main_c ≡ true
    → total + bytes_of files ≤ 65536
    → are_valid (items (files_json files)) names total ≡ true
unfolding are_valid files_json bytes_of is_valid_source
are_valid-files_json [] names total safe unique fresh main small =
    ground (arith, small, subst (λ ns. has ns main_c ≡ true) (append-nil names) main)
are_valid-files_json (file ∷ files) names total safe unique fresh main small =
    let name = to_lower_case file.name in
    let rest =
      are_valid-files_json files (names ++ name ∷ []) (total + byte_length file.content) safe.1
        unique.1 (Fresh-append names name (lower_names files) fresh.1 unique.0)
        (subst (λ ns. has ns main_c ≡ true)
          (sym (append_assoc names (name ∷ []) (lower_names files))) main)
        (omega (arith, small)) in
    rw (valid_name-file_json file safe.0.0, content_of-file_json file, are_valid)
      (rw (rest, fresh.0, safe.0.2) (ground (arith, small)))

source_files-files_json :
    (files : List SourceFile)
    → All IsSafeFile files
    → source_files (items (files_json files)) ≡ some files
unfolding source_files source_file files_json
source_files-files_json [] safe = refl
source_files-files_json (file ∷ files) safe =
    rw
      (
        valid_name-file_json file safe.0.0,
        content_of-file_json file,
        source_files-files_json files safe.1,
        source_files,
      )
      refl

is_valid_source_files-files_json :
    (files : List SourceFile)
    → AreSafe files
    → is_valid_source_files (some (arr (files_json files))) ≡ true
unfolding is_valid_source_files has
is_valid_source_files-files_json files safe =
    rw
      (are_valid-files_json files [] 0 safe.each safe.unique (no-Fresh (lower_names files))
        safe.main (omega (arith, safe.small)))
      (ground (arith, length-files_json files, safe.some_file, safe.few))

pub create_session_request-upstream_body :
    (files : List SourceFile) (visitor_id client_ip : Text)
    → AreSafe files
    → is_bounded visitor_id visitor_id_max_length ≡ true
    → is_bounded client_ip client_ip_max_length ≡ true
    → create_session_request (some (lsp_route.upstream_body files visitor_id client_ip))
      ≡ some (record { files = files; visitor_id = visitor_id; client_ip = client_ip })
unfolding create_session_request lsp_route prop codes text_eq bounded_string
create_session_request-upstream_body files visitor_id client_ip safe v c =
    rw (is_valid_source_files-files_json files safe)
      (rw (source_files-files_json files safe.each) (rw (v, c) refl))

abbrev pub IsCleanHeader : Option Text → Type 0
IsCleanHeader none = Unit
IsCleanHeader (some text) = IsClean text

client_ip-is_bounded :
    (forwarded : Option Text)
    → IsCleanHeader forwarded
    → is_bounded (get_client_ip forwarded) client_ip_max_length ≡ true
unfolding get_client_ip is_bounded codes includes
client_ip-is_bounded none c = refl
client_ip-is_bounded (some text) c = get_client_ip-is_bounded text c

-- For safe files, a visitor ID of the right form and a forwarded address with no NUL, CR or LF, the
-- body that the web service sends passes the checks of the LSP service, which reads the same files,
-- visitor ID and address from it.
pub forwarded-create_session_request :
    (files : List SourceFile) (visitor_id : Text) (forwarded : Option Text)
    → AreSafe files
    → is_visitor_id visitor_id ≡ true
    → IsCleanHeader forwarded
    → create_session_request
        (some (lsp_route.upstream_body files visitor_id (get_client_ip forwarded)))
      ≡ some
          (record { files = files; visitor_id = visitor_id; client_ip = get_client_ip forwarded })
forwarded-create_session_request files visitor_id forwarded safe v c =
    create_session_request-upstream_body files visitor_id (get_client_ip forwarded) safe
      (is_visitor_id-is_bounded visitor_id v) (client_ip-is_bounded forwarded c)
