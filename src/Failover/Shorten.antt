-- ===== src/Failover/Shorten.antt =====
-- The shortened messages are no longer than the message.
use ai_agent_starter_kit.Failover.{
  cut_text, line_breaks, compact_user_message, truncate_payload_for_retry,
}
use ai_agent_starter_kit.Common.{
  ℕ, ◌*◌, ◌/◌, ◌≤◌, min, max, ◌≡◌, Bool, true, false, ◌||◌, [], ◌∷◌, ◌++◌, arith, leb,
  if◌then◌else◌, length, is_empty, take, length-append, length-take, Text, codes, lstrip, rstrip,
  strip,
}

length-lstrip-le : (s : Text) → length (lstrip s) ≤ length s
unfolding lstrip
length-lstrip-le [] = omega arith
length-lstrip-le (c ∷ s) = ground (arith, length-lstrip-le s)

length-rstrip-le : (s : Text) → length (rstrip s) ≤ length s
unfolding rstrip
length-rstrip-le [] = omega arith
length-rstrip-le (c ∷ s) = ground (arith, length-rstrip-le s)

length-strip-le : (s : Text) → length (strip s) ≤ length s
unfolding strip
length-strip-le s = omega (arith, length-rstrip-le (lstrip s), length-lstrip-le s)

length-cut_text-le :
    (text : Text) (n : ℕ) (suffix : Text) → length (cut_text text n suffix) ≤ length text
unfolding cut_text
length-cut_text-le text n suffix = ground (
  arith,
  length-rstrip-le (take n text),
  length-take n text,
  length-append (rstrip (take n text)) suffix,
)

-- The text as it is where it is short or empty, and cut otherwise.
length-shorten-le :
    (text : Text) (n : ℕ) (suffix : Text) (b : Bool)
    → length (if b then text else cut_text text n suffix) ≤ length text
length-shorten-le text n suffix true = omega arith
length-shorten-le text n suffix false = length-cut_text-le text n suffix

short_enough :
    (text other : Text) (b : Bool) (n m : ℕ)
    → length text ≤ m
    → m ≤ n
    → (if b || leb (length text) n then text else other) ≡ text
short_enough text other b n m h k = ground (arith, h, k)

-- Compacting or truncating a message never makes it longer, whatever the settings, although both may
-- append a note; and a message that is no longer than the minimum is only stripped.
pub shortening-le :
    (ratio min_chars target : ℕ) (message : Text)
    → (length (compact_user_message ratio min_chars message) ≤ length message)
      × (length (truncate_payload_for_retry target min_chars message) ≤ length message)
      × (length message ≤ min_chars
          → (compact_user_message ratio min_chars message ≡ strip message)
            × (truncate_payload_for_retry target min_chars message ≡ strip message))
unfolding compact_user_message truncate_payload_for_retry
shortening-le ratio min_chars target message =
    let text = strip message in
    let compacted = max min_chars (length text * min 95 (max 20 ratio) / 100) in
    let truncated = max min_chars target in
    let le = length-strip-le message in
    let short = λ (suffix : Text) (n : ℕ) (h : length message ≤ min_chars) (k : min_chars ≤ n).
      short_enough text (cut_text text n suffix) (is_empty text) n min_chars (omega (arith, h, le))
        k in
    (
      omega (
        arith,
        le,
        length-shorten-le text compacted
            (line_breaks ++ codes "[context compacted by pipeline runner due to context_overflow]")
            (is_empty text || leb (length text) compacted),
      ),
      omega (
        arith,
        le,
        length-shorten-le text truncated
            (line_breaks
              ++ codes "[payload truncated by pipeline runner due to truncation_required]")
            (is_empty text || leb (length text) truncated),
      ),
      λ h. (
        short
            (line_breaks ++ codes "[context compacted by pipeline runner due to context_overflow]")
            compacted h (omega arith),
        short
            (line_breaks
              ++ codes "[payload truncated by pipeline runner due to truncation_required]")
            truncated h (omega arith),
      ),
    )
