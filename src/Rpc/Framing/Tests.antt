-- ===== src/Rpc/Framing/Tests.antt =====
-- The framing of requests at concrete inputs.
use roboplc_middle.Prelude.{ℕ, ◌≡◌, refl, arith, true, false, List, [], ◌∷◌}
use roboplc_middle.Rpc.Framing.{scan_start, scan, scan_byte, bytes, timed_out, received, read_loop}
use roboplc_middle.Rpc.Framing.Documents.{
  Content, end, plain, string, block, text_end, char, escaped, document,
}
use roboplc_middle.Rpc.Framing.Chunks.{Chunks, reads, read_loop-document}

-- {"}\"":[1]}
abbrev inner : Content
inner =
    string (char b'}' refl (escaped b'"' text_end))
      (plain b':' refl (block false (plain b'1' refl end) end))

abbrev first : ℕ × List ℕ
first = (b'{', b'"' ∷ b'}' ∷ [])

abbrev others : Chunks
others = (b'\\', b'"' ∷ b'"' ∷ b':' ∷ []) ∷ (b'[', b'1' ∷ b']' ∷ b'}' ∷ []) ∷ []

-- A bracket alone in a string does not end the request.
waits :
    read_loop scan_start [] (bytes (b'{' ∷ b'"' ∷ b'}' ∷ []) ∷ timed_out ∷ [])
    ≡ received (b'{' ∷ b'"' ∷ b'}' ∷ [])
unfolding read_loop scan scan_byte
waits = refl

read_loop-document_example :
    read_loop scan_start [] (reads (first ∷ others) (timed_out ∷ []))
    ≡ received (document true inner)
read_loop-document_example =
    read_loop-document true inner first others (timed_out ∷ []) refl (omega arith)

timed_out_empty : read_loop scan_start [] (timed_out ∷ []) ≡ received []
unfolding read_loop
timed_out_empty = refl
