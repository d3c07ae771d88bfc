-- ===== src/Guard/Documents/Invariant.antt =====
-- The open documents stay within the session's files and its byte limit.
use smart_c_playground.Prelude.{ℕ, ◌+◌, ◌-◌, ◌≤◌, ◌≡◌, refl, true, some, Bool, arith}
use smart_c_playground.Text.{Text, has, byte_length}
use smart_c_playground.Map.{
  Map, get, total, Distinct, Every, Every-get, set-Every, delete-Every, set-Distinct,
  delete-Distinct, total-set_new, total-set_old, total-delete,
}
use smart_c_playground.Guard.Change.Safe.{IsSafe}
use smart_c_playground.Guard.State.{Verdict, Config, Document, Guard}
use smart_c_playground.Guard.Documents.Steps.{
  DocumentStep, refuses, keeps, opens, changes, saves, closes, put_document,
}

abbrev pub bytes : Document → ℕ
bytes d = d.bytes

module _ (o : Config) where
  -- A document of the session, whose size is known and whose text clangd may see.
  abbrev pub IsTracked : Text → Document → Type 0
  IsTracked uri d =
      (has o.document_uris uri ≡ true)
      × IsSafe o.max_document_bytes d.text
      × (d.bytes ≡ byte_length d.text)

  pub record AreTracked (documents : Map Document) (document_bytes : ℕ) : Type 0 where
    pub counted : document_bytes ≡ total bytes documents
    pub fits : document_bytes ≤ o.max_document_bytes
    pub tracked : Every IsTracked documents
    pub distinct : Distinct documents

  abbrev pub HasTracked : Guard → Type 0
  HasTracked g = AreTracked g.documents g.document_bytes

  replaced-HasTracked :
      (g : Guard) (uri text : Text) (version : ℕ) (document : Document) (notify : Bool)
      → HasTracked g
      → get g.documents uri ≡ some document
      → IsSafe o.max_document_bytes text
      → g.document_bytes - document.bytes + byte_length text ≤ o.max_document_bytes
      → HasTracked (
          put_document g uri text version
            (g.document_bytes - document.bytes + byte_length text)
            notify)
  replaced-HasTracked g uri text version document notify h d safe fits =
      let new : Document = record { text = text; version = version; bytes = byte_length text } in
      record {
        counted = omega (
          arith,
          h.counted,
          total-set_old bytes g.documents uri new document d,
          total-delete bytes g.documents uri document d,
        );
        fits = fits;
        tracked =
            set-Every IsTracked g.documents uri new
              ((Every-get IsTracked g.documents uri document h.tracked d).0, safe, refl) h.tracked;
        distinct = set-Distinct g.documents uri new h.distinct;
      }

  -- Every step of a document handler keeps the documents tracked.
  pub step-HasTracked :
      (g : Guard) {r : Guard × Verdict} → DocumentStep o g r → HasTracked g → HasTracked r.0
  step-HasTracked g (refuses reason) h = h
  step-HasTracked g keeps h = h
  step-HasTracked g (opens uri text version allowed closed safe fits) h =
      let new : Document = record { text = text; version = version; bytes = byte_length text } in
      record {
        counted = omega (arith, h.counted, total-set_new bytes g.documents uri new closed);
        fits = fits;
        tracked = set-Every IsTracked g.documents uri new (allowed, safe, refl) h.tracked;
        distinct = set-Distinct g.documents uri new h.distinct;
      }
  step-HasTracked g (changes uri text version document edits d newer applied safe fits) h =
      replaced-HasTracked g uri text version document true h d safe fits
  step-HasTracked g (saves uri text document d safe fits) h =
      replaced-HasTracked g uri text document.version document true h d safe fits
  step-HasTracked g (closes uri document d) h = record {
    counted = omega (arith, h.counted, total-delete bytes g.documents uri document d);
    fits = omega (arith, h.fits);
    tracked = delete-Every IsTracked g.documents uri h.tracked;
    distinct = delete-Distinct g.documents uri h.distinct;
  }

  -- The bytes that a handler takes off are there, so its subtraction is exact.
  pub bytes-le_of_get :
      (g : Guard) (uri : Text) (document : Document)
      → HasTracked g
      → get g.documents uri ≡ some document
      → document.bytes ≤ g.document_bytes
  bytes-le_of_get g uri document h d =
      omega (arith, h.counted, total-delete bytes g.documents uri document d)
