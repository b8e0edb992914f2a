-- ===== src/Rpc/Framing.antt =====
-- How `handle_connection` (workers/rpc/connection.rs) finds the end of a request: it scans the bytes
-- of each read for brackets outside strings.
pub mod Documents
pub mod Chunks
mod Tests
use roboplc_middle.Prelude.{
  ℕ, zero, suc, ◌+◌, Bool, true, false, not, ◌&&◌, ◌||◌, List, [], ◌∷◌, ◌++◌, ltb, ◌==◌,
  if◌then◌else◌, length,
}
use roboplc_middle.Prelude.Int.{ℤ, pos, negsuc}

abbrev pub max_request_size : ℕ
max_request_size = 1048576

-- `brace_depth` is an i32, which the size of a request keeps from overflowing.
pub record Scan : Type 0 where
  pub brace_depth : ℤ
  pub in_string : Bool
  pub escape : Bool
  pub json_started : Bool

abbrev pub scan_start : Scan
scan_start = record { brace_depth = pos 0; in_string = false; escape = false; json_started = false }

abbrev pub add_one : ℤ → ℤ
add_one (pos n) = pos (suc n)
add_one (negsuc zero) = pos zero
add_one (negsuc (suc n)) = negsuc n

abbrev pub sub_one : ℤ → ℤ
sub_one (pos zero) = negsuc zero
sub_one (pos (suc n)) = pos n
sub_one (negsuc n) = negsuc (suc n)

abbrev pub is_zero : ℤ → Bool
is_zero (pos zero) = true
is_zero _ = false

-- The body of the loop over the new bytes.
unfoldable pub scan_byte : Scan → ℕ → Scan
scan_byte s b =
    if s.escape
    then record s { escape = false }
    else if b == b'\\' && s.in_string
    then record s { escape = true }
    else if b == b'"'
    then record s { in_string = not s.in_string }
    else if s.in_string
    then s
    else if b == b'{' || b == b'['
    then record s { brace_depth = add_one s.brace_depth; json_started = true }
    else if b == b'}' || b == b']'
    then record s { brace_depth = sub_one s.brace_depth }
    else s

unfoldable pub scan : Scan → List ℕ → Scan
unfolding scan_byte
scan s [] = s
scan s (b ∷ bs) = scan (scan_byte s b) bs

abbrev pub is_complete : Scan → Bool
is_complete s = s.json_started && is_zero s.brace_depth

-- How a read with its timeout ends; `bytes []` is the end of the stream.
pub data ReadEvent : Type 0 where
  bytes : List ℕ → ReadEvent
  read_failed : ReadEvent
  timed_out : ReadEvent

-- How the loop ends; `waiting` stands for the next read, after the events that are given.
pub data Received : Type 0 where
  received : List ℕ → Received
  too_large : Received
  failed : Received
  waiting : Received

unfoldable pub read_loop : Scan → List ℕ → List ReadEvent → Received
unfolding scan
read_loop s payload [] = waiting
read_loop s payload (read_failed ∷ events) = failed
read_loop s payload (timed_out ∷ events) = received payload
read_loop s payload (bytes [] ∷ events) = received payload
read_loop s payload (bytes (b ∷ bs) ∷ events) =
    let more = read_loop (scan s (b ∷ bs)) (payload ++ b ∷ bs) events in
    if ltb max_request_size (length (payload ++ b ∷ bs))
    then too_large
    else if is_complete (scan s (b ∷ bs))
    then received (payload ++ b ∷ bs)
    else more
