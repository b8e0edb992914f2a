-- ===== src/Rpc/Framing/Documents.antt =====
-- Bracketed documents, and their scan by workers/rpc/connection.rs.
use roboplc_middle.Prelude.{
  ℕ, zero, suc, ◌≡◌, refl, arith, Bool, true, false, not, ◌||◌, List, [], ◌∷◌, ◌==◌,
}
use roboplc_middle.Prelude.Int.{pos}
use roboplc_middle.Rpc.Framing.{Scan, scan_start, scan_byte, is_complete}

-- A byte that is neither a bracket nor a quote; one that is neither a quote nor a backslash.
abbrev pub is_plain : ℕ → Bool
is_plain c = not (c == b'"' || c == b'{' || c == b'[' || c == b'}' || c == b']')

abbrev pub is_text : ℕ → Bool
is_text c = not (c == b'"' || c == b'\\')

-- The inside of a string.
pub data Text : Type 0 where
  text_end : Text
  char : (c : ℕ) → is_text c ≡ true → Text → Text
  escaped : ℕ → Text → Text

-- What stands between brackets: plain bytes, strings, and documents in brackets of their own.
pub data Content : Type 0 where
  end : Content
  plain : (c : ℕ) → is_plain c ≡ true → Content → Content
  string : Text → Content → Content
  block : Bool → Content → Content → Content

-- The bytes, before those that follow.
abbrev pub text_bytes : Text → List ℕ → List ℕ
text_bytes text_end rest = rest
text_bytes (char c _ t) rest = c ∷ text_bytes t rest
text_bytes (escaped c t) rest = b'\\' ∷ c ∷ text_bytes t rest

-- A block is an object or an array.
abbrev pub opening : Bool → ℕ
opening true = b'{'
opening false = b'['

abbrev pub closing : Bool → ℕ
closing true = b'}'
closing false = b']'

abbrev pub content_bytes : Content → List ℕ → List ℕ
content_bytes end rest = rest
content_bytes (plain c _ k) rest = c ∷ content_bytes k rest
content_bytes (string t k) rest = b'"' ∷ text_bytes t (b'"' ∷ content_bytes k rest)
content_bytes (block curly inner k) rest =
    opening curly ∷ content_bytes inner (closing curly ∷ content_bytes k rest)

-- A request: one object or array.
abbrev pub document : Bool → Content → List ℕ
document curly inner = opening curly ∷ content_bytes inner (closing curly ∷ [])

-- The scan is incomplete before each of the bytes, and complete after the last.
abbrev pub Frames : Scan → List ℕ → Type 0
Frames s [] = is_complete s ≡ true
Frames s (b ∷ bs) = (is_complete s ≡ false) × Frames (scan_byte s b) bs

abbrev at_depth : ℕ → Scan
at_depth d = record {
  brace_depth = pos (suc d);
  in_string = false;
  escape = false;
  json_started = true;
}

abbrev in_text : ℕ → Scan
in_text d = record {
  brace_depth = pos (suc d);
  in_string = true;
  escape = false;
  json_started = true;
}

plain_stays : (d c : ℕ) → is_plain c ≡ true → scan_byte (at_depth d) c ≡ at_depth d
unfolding scan_byte
plain_stays d c h = ground arith

text_stays : (d c : ℕ) → is_text c ≡ true → scan_byte (in_text d) c ≡ in_text d
unfolding scan_byte
text_stays d c h = ground arith

text-Frames :
    (d : ℕ) (t : Text) (rest : List ℕ)
    → Frames (at_depth d) rest
    → Frames (in_text d) (text_bytes t (b'"' ∷ rest))
unfolding scan_byte
text-Frames d text_end rest f = (refl, f)
text-Frames d (char c h t) rest f = (refl, rw (text_stays d c h) (text-Frames d t rest f))
text-Frames d (escaped c t) rest f = (refl, (refl, text-Frames d t rest f))

content-Frames :
    (k : Content) (d : ℕ) (rest : List ℕ)
    → Frames (at_depth d) rest
    → Frames (at_depth d) (content_bytes k rest)
unfolding scan_byte
content-Frames end d rest f = f
content-Frames (plain c h k) d rest f = (refl, rw (plain_stays d c h) (content-Frames k d rest f))
content-Frames (string t k) d rest f =
    (refl, text-Frames d t (content_bytes k rest) (content-Frames k d rest f))
content-Frames (block true inner k) d rest f =
    (refl, content-Frames inner (suc d) _ (refl, content-Frames k d rest f))
content-Frames (block false inner k) d rest f =
    (refl, content-Frames inner (suc d) _ (refl, content-Frames k d rest f))

pub document-Frames : (curly : Bool) (inner : Content) → Frames scan_start (document curly inner)
unfolding scan_byte
document-Frames true inner = (refl, content-Frames inner zero _ (refl, refl))
document-Frames false inner = (refl, content-Frames inner zero _ (refl, refl))
