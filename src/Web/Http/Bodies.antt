-- ===== src/Web/Http/Bodies.antt =====
-- readJsonBody of apps/web/lib/server/http.ts against a body that is decoded at once.
use smart_c_playground.Prelude.{
  ℕ, ◌+◌, ◌≤◌, ◌≡◌, refl, ◌∙◌, ap, inl, inr, Bool, some, List, [], ◌∷◌, ◌++◌, arith, ltb,
  if◌then◌else◌, length, length-append, Bool-cases,
}
use mathlib.Core.List.{append_assoc}
use smart_c_playground.Text.{Text}
use smart_c_playground.Web.{Stream, done, chunk, Platform}
use smart_c_playground.Web.Http.{
  max_request_bytes, Reading, read, exceeded, read_chunks, refused, unreadable, too_large, parsed,
  body_of, read_stream,
}

-- A body that comes to its end, cut into chunks.
unfoldable pub chunks : List (List ℕ) → Stream
chunks [] = done
chunks (bytes ∷ rest) = chunk bytes (chunks rest)

unfoldable pub joined : List (List ℕ) → List ℕ
joined [] = []
joined (bytes ∷ rest) = bytes ++ joined rest

-- TextDecoder in its streaming mode: bytes that come in two parts are decoded as they are when they come
-- together, and no bytes are no text.
pub record IsStreaming (p : Platform) : Type 0 where
  pub nothing : (d : p.Decoder) → p.decode_streamed d [] ≡ ([], d)
  pub in_parts :
      (d : p.Decoder) (a b : List ℕ)
      → p.decode_streamed d (a ++ b) ≡ (
        (p.decode_streamed d a).0 ++ (p.decode_streamed (p.decode_streamed d a).1 b).0,
        (p.decode_streamed (p.decode_streamed d a).1 b).1,
      )

module _ (p : Platform) where
  -- The text of a whole body.
  abbrev pub decoded : p.Decoder → List ℕ → Text
  decoded d bytes = (p.decode_streamed d bytes).0 ++ p.decode_rest (p.decode_streamed d bytes).1

  module _ (streaming : IsStreaming p) where
    decoded-append :
        (d : p.Decoder) (a b : List ℕ)
        → decoded d (a ++ b) ≡ (p.decode_streamed d a).0 ++ decoded (p.decode_streamed d a).1 b
    decoded-append d a b =
        ap (λ (r : Text × p.Decoder). r.0 ++ p.decode_rest r.1) (streaming.in_parts d a b)
        ∙ append_assoc (p.decode_streamed d a).0 _ _

    decoded-nothing : (d : p.Decoder) → decoded d [] ≡ p.decode_rest d
    decoded-nothing d =
        ap (λ (r : Text × p.Decoder). r.0 ++ p.decode_rest r.1) (streaming.nothing d)

    -- What is read of all the bytes at once, after a text, where `total` counts them all.
    abbrev reading_of : (total : ℕ) → p.Decoder → (text : Text) → List ℕ → Reading
    reading_of total d text bytes =
        if ltb max_request_bytes total then exceeded else read (text ++ decoded d bytes)

    counted : (count : ℕ) (a b : List ℕ) → count + length a + length b ≡ count + length (a ++ b)
    counted count a b = omega (arith, length-append a b)

    read_chunks-reading :
        (cs : List (List ℕ)) (count : ℕ) (d : p.Decoder) (text : Text)
        → count ≤ max_request_bytes
        → read_chunks p (chunks cs) count d text
          ≡ reading_of (count + length (joined cs)) d text (joined cs)
    unfolding read_chunks chunks joined
    read_chunks-reading [] count d text h = rw (decoded-nothing d) (ground (arith, h))
    read_chunks-reading (c ∷ cs) count d text h =
        elim (Bool-cases (ltb max_request_bytes (count + length c))) [
          | inl over ↦ rw over (ground (arith, over, length-append c (joined cs)))
          | inr within ↦ rw within (
              read_chunks-reading cs (count + length c) (p.decode_streamed d c).1
                (text ++ (p.decode_streamed d c).0) (ground (arith, within))
              ∙ rw
                  (
                    counted count c (joined cs),
                    decoded-append d c (joined cs),
                    append_assoc text (p.decode_streamed d c).0
                        (decoded (p.decode_streamed d c).1 (joined cs)),
                  )
                  refl)
        ]

    -- With a decoder that decodes bytes in two parts as it decodes them together, `read_stream`
    -- gives the same however a body is cut into chunks: if its bytes are over the limit, the answer
    -- that it is too large, or that it is unreadable where the cancelling fails, and else the parse
    -- of the text that they are decoded to at once.
    pub read_stream-chunks :
        (cancel_fails : Bool) (cs : List (List ℕ))
        → read_stream p cancel_fails (some (chunks cs)) ≡ (
            if ltb max_request_bytes (length (joined cs))
            then refused (if cancel_fails then unreadable else too_large)
            else parsed (p.parse_text (decoded p.new_decoder (joined cs))))
    unfolding read_stream body_of
    read_stream-chunks cancel_fails cs =
        let from_zero : 0 + length (joined cs) ≡ length (joined cs) = omega arith in
        ap (body_of p cancel_fails) (
          read_chunks-reading cs 0 p.new_decoder [] (omega arith)
          ∙ ap (λ (n : ℕ). reading_of n p.new_decoder [] (joined cs)) from_zero)
        ∙ elim (Bool-cases (ltb max_request_bytes (length (joined cs)))) [
          | inl over ↦ rw over refl
          | inr within ↦ rw within refl
        ]
