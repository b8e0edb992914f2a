-- ===== src/Rpc/Framing/Chunks.antt =====
-- The reads of one request (workers/rpc/connection.rs), however they cut it.
use mathlib.Core.Path.{subst}
use mathlib.Core.List.{append_assoc, append-nil}
use roboplc_middle.Prelude.{
  ℕ, ◌≤◌, ◌≡◌, refl, sym, ap, ◌∙◌, arith, Bool, true, false, List, [], ◌∷◌, ◌++◌, ltb,
  if◌then◌else◌, length, length-append,
}
use roboplc_middle.Rpc.Framing.{
  Scan, scan_start, scan_byte, scan, is_complete, ReadEvent, bytes, read_failed, timed_out,
  Received, received, too_large, read_loop, max_request_size,
}
use roboplc_middle.Rpc.Framing.Documents.{Content, document, Frames, document-Frames}

-- Chunks of at least one byte each, and the bytes that they make together.
abbrev pub Chunks : Type 0
Chunks = List (ℕ × List ℕ)

abbrev pub chunk_bytes : Chunks → List ℕ
chunk_bytes [] = []
chunk_bytes ((b, bs) ∷ cs) = (b ∷ bs) ++ chunk_bytes cs

abbrev pub reads : Chunks → List ReadEvent → List ReadEvent
reads [] events = events
reads ((b, bs) ∷ cs) events = bytes (b ∷ bs) ∷ reads cs events

scan-Frames : (bs rest : List ℕ) (s : Scan) → Frames s (bs ++ rest) → Frames (scan s bs) rest
unfolding scan
scan-Frames [] rest s f = f
scan-Frames (b ∷ bs) rest s f = scan-Frames bs rest (scan_byte s b) f.1

within :
    (p bs rest : List ℕ)
    → length (p ++ (bs ++ rest)) ≤ max_request_size
    → ltb max_request_size (length (p ++ bs)) ≡ false
within p bs rest h =
    ground (arith, length-append p (bs ++ rest), length-append bs rest, length-append p bs)

read_loop-Frames :
    (c : ℕ × List ℕ) (cs : Chunks) (events : List ReadEvent) (s : Scan) (p : List ℕ)
    → Frames s (chunk_bytes (c ∷ cs))
    → length (p ++ chunk_bytes (c ∷ cs)) ≤ max_request_size
    → read_loop s p (reads (c ∷ cs) events) ≡ received (p ++ chunk_bytes (c ∷ cs))
unfolding read_loop
read_loop-Frames (b, bs) [] events s p f h =
    let g = scan-Frames (b ∷ bs) [] s f in
    rw (within p (b ∷ bs) [] h, g) (ap (λ q. received (p ++ q)) (sym (append-nil (b ∷ bs))))
read_loop-Frames (b, bs) (d ∷ cs) events s p f h =
    let g = scan-Frames (b ∷ bs) (chunk_bytes (d ∷ cs)) s f in
    let same = append_assoc p (b ∷ bs) (chunk_bytes (d ∷ cs)) in
    let small : length ((p ++ b ∷ bs) ++ chunk_bytes (d ∷ cs)) ≤ max_request_size =
      omega (arith, ap length same, h) in
    rw (within p (b ∷ bs) (chunk_bytes (d ∷ cs)) h, g.0)
      (read_loop-Frames d cs events (scan s (b ∷ bs)) (p ++ b ∷ bs) g small ∙ ap received same)

-- The end of a round of the loop.
chosen :
    (big complete : Bool) (q payload : List ℕ) (more : Received)
    → ltb max_request_size (length q) ≡ big
    → (length q ≤ max_request_size → more ≡ received payload → length payload ≤ max_request_size)
    → (if big then too_large else if complete then received q else more) ≡ received payload
    → length payload ≤ max_request_size
chosen true complete q payload more l k e = absurd cc
chosen false true q payload more l k e =
    let same : q ≡ payload = cc in ground (arith, ap length same, l)
chosen false false q payload more l k e = k (ground (arith, l)) e

-- However the network cuts a request into reads, and whatever it brings afterwards, the loop stops
-- exactly with the read that ends the request, and has the request's bytes: for every document of
-- bracketed content with strings, of at most 1 MiB.
pub read_loop-document :
    (curly : Bool) (inner : Content) (c : ℕ × List ℕ) (cs : Chunks) (events : List ReadEvent)
    → chunk_bytes (c ∷ cs) ≡ document curly inner
    → length (document curly inner) ≤ max_request_size
    → read_loop scan_start [] (reads (c ∷ cs) events) ≡ received (document curly inner)
read_loop-document curly inner c cs events e h =
    read_loop-Frames c cs events scan_start []
      (subst (Frames scan_start) (sym e) (document-Frames curly inner))
      (omega (arith, ap length e, h))
    ∙ ap received e

-- Whatever is read, what the loop hands on has at most 1 MiB.
pub read_loop-bounded :
    (events : List ReadEvent) (s : Scan) (p payload : List ℕ)
    → length p ≤ max_request_size
    → read_loop s p events ≡ received payload
    → length payload ≤ max_request_size
unfolding read_loop
read_loop-bounded [] s p payload h e = absurd cc
read_loop-bounded (read_failed ∷ events) s p payload h e = absurd cc
read_loop-bounded (timed_out ∷ events) s p payload h e =
    let same : p ≡ payload = cc in omega (arith, ap length same, h)
read_loop-bounded (bytes [] ∷ events) s p payload h e =
    let same : p ≡ payload = cc in omega (arith, ap length same, h)
read_loop-bounded (bytes (b ∷ bs) ∷ events) s p payload h e =
    let q = p ++ b ∷ bs in
    chosen (ltb max_request_size (length q)) (is_complete (scan s (b ∷ bs))) q payload _ refl
      (λ k. read_loop-bounded events (scan s (b ∷ bs)) q payload k) e
