-- ===== src/MessageBuffer/Lines.antt =====
-- The buffer cuts a stream of bytes into its lines, however the stream arrives.
use native.Mathlib.Numerals.{add-one}
use ojalvo_chat.Prelude.{
  ℕ, suc, ◌+◌, ◌-◌, ◌^◌, ◌≤◌, ◌<◌, ◌≡◌, refl, Bool, true, not, ◌&&◌, ◌||◌, List, [], ◌∷◌, ◌++◌,
  Option, none, some, length, drop, leb, ltb, ◌==◌, ◌↔◌, if◌then◌else◌, arith, length-append,
  Option-cases, inl, inr, ap, sym, ◌∙◌, take-append,
}
use ojalvo_chat.Message.{server_buffer_size}
use ojalvo_chat.MessageBuffer.{
  MessageBuffer, Extracted, memchr, cut_at, message_buffer_append, message_buffer_extract,
  message_is_valid, message_buffer_sanitize,
}

-- The first line and what follows it, if there is a whole line.
pub first_line : List ℕ → Option (List ℕ × List ℕ)
first_line [] = none
first_line (b ∷ bytes) =
    let rest = first_line bytes in
    if b == 10
    then some ([], bytes)
    else (elim rest [ none ↦ none | some (line, after) ↦ some (b ∷ line, after) ])

abbrev pub taken : Option (List ℕ × List ℕ) → Option Extracted
taken none = none
taken (some (line, after)) =
    some (record { out = line; out_length = length line; buffer = record { contents = after } })

memchr-first_line :
    (bytes : List ℕ)
    → memchr bytes 10
      ≡ elim (first_line bytes) [ none ↦ none | some (line, after) ↦ some (length line) ]
unfolding memchr first_line
memchr-first_line [] = refl
memchr-first_line (b ∷ bytes) = ground (arith, memchr-first_line bytes)

first_line-append :
    (bytes : List ℕ) (line after : List ℕ)
    → first_line bytes ≡ some (line, after)
    → bytes ≡ line ++ (10 ∷ after)
unfolding first_line
first_line-append [] line after h = cc
first_line-append (b ∷ bytes) line after h = elim (Option-cases (first_line bytes)) [
  | inl e ↦ ground (arith, e)
  | inr ((l, a), e) ↦ ground (arith, e, first_line-append bytes l a e)
]

drop-suc-line : (line after : List ℕ) → drop (suc (length line)) (line ++ (10 ∷ after)) ≡ after
drop-suc-line [] after = refl
drop-suc-line (b ∷ line) after = drop-suc-line line after

drop-line : (line after : List ℕ) → drop (length line + 1) (line ++ (10 ∷ after)) ≡ after
drop-line line after = rw add-one (drop-suc-line line after)

cut_at-line :
    (line after : List ℕ) (cap : ℕ)
    → length line + 1 ≤ cap
    → cut_at (record { contents = line ++ (10 ∷ after) }) cap (length line)
      ≡ record { out = line; out_length = length line; buffer = record { contents = after } }
unfolding cut_at
cut_at-line line after cap h =
    let n : (if ltb (length line) (cap - 1) then length line else cap - 1) ≡ length line =
      ground arith in
    rw (n, take-append line (10 ∷ after), drop-line line after)

extract-some :
    (c : List ℕ) (cap n : ℕ)
    → 0 < cap
    → memchr c 10 ≡ some n
    → message_buffer_extract (record { contents = c }) cap
      ≡ some (cut_at (record { contents = c }) cap n)
unfolding message_buffer_extract
extract-some c cap n pos e = ground (arith, e)

extract-line :
    (c line after : List ℕ) (cap : ℕ)
    → length c ≤ cap
    → first_line c ≡ some (line, after)
    → message_buffer_extract (record { contents = c }) cap ≡ taken (some (line, after))
extract-line c line after cap h e =
    let eq : c ≡ line ++ (10 ∷ after) = first_line-append c line after e in
    let size : length c ≡ length line + suc (length after) =
      ap length eq ∙ length-append line (10 ∷ after) in
    extract-some c cap (length line) (omega arith) (ground (arith, memchr-first_line c, e))
    ∙ rw eq (ap some (cut_at-line line after cap (omega arith)))

-- Given room for the whole buffer, a call of message_buffer_extract takes out the first line uncut
-- and leaves what follows it; with no whole line in the buffer it returns false.
pub message_buffer_extract-first_line :
    (b : MessageBuffer) (cap : ℕ)
    → length b.contents ≤ cap
    → 0 < cap
    → message_buffer_extract b cap ≡ taken (first_line b.contents)
unfolding message_buffer_extract
message_buffer_extract-first_line b cap h pos = elim (Option-cases (first_line b.contents)) [
  | inl e ↦ ground (arith, memchr-first_line b.contents, e)
  | inr ((line, after), e) ↦ extract-line b.contents line after cap h e ∙ ap taken (sym e)
]

-- A byte in front of a stream that is cut into lines.
abbrev pub add_byte : ℕ → List (List ℕ) × List ℕ → List (List ℕ) × List ℕ
add_byte b ([], r) = if b == 10 then ([] ∷ [], r) else ([], b ∷ r)
add_byte b (l ∷ ls, r) = if b == 10 then ([] ∷ l ∷ ls, r) else ((b ∷ l) ∷ ls, r)

-- All the whole lines, and what follows the last of them.
unfoldable pub lines : List ℕ → List (List ℕ) × List ℕ
lines [] = ([], [])
lines (b ∷ bytes) = add_byte b (lines bytes)

-- The lines of a stream, from its first.
unfoldable pub from_first : List ℕ → Option (List ℕ × List ℕ) → List (List ℕ) × List ℕ
from_first c none = ([], c)
from_first c (some (line, after)) = (line ∷ (lines after).0, (lines after).1)

pub lines-first_line : (c : List ℕ) → lines c ≡ from_first c (first_line c)
unfolding lines first_line from_first
lines-first_line [] = refl
lines-first_line (b ∷ c) = ground (arith, lines-first_line c)

abbrev pub after_lines : List (List ℕ) × List ℕ → List ℕ → List (List ℕ) × List ℕ
after_lines (ls, r) ys = (ls ++ (lines (r ++ ys)).0, (lines (r ++ ys)).1)

add_byte-after_lines :
    (b : ℕ) (ls : List (List ℕ)) (r ys : List ℕ)
    → add_byte b (after_lines (ls, r) ys) ≡ after_lines (add_byte b (ls, r)) ys
unfolding lines
add_byte-after_lines b [] r ys = ground arith
add_byte-after_lines b (l ∷ ls) r ys = ground arith

-- Cutting a stream into lines may stop anywhere and go on from the bytes that were left over.
pub lines-append : (xs ys : List ℕ) → lines (xs ++ ys) ≡ after_lines (lines xs) ys
unfolding lines
lines-append [] ys = refl
lines-append (b ∷ xs) ys =
    ap (add_byte b) (lines-append xs ys) ∙ add_byte-after_lines b (lines xs).0 (lines xs).1 ys

-- What is left over is no longer than the stream.
pub length-lines : (c : List ℕ) → length (lines c).1 ≤ length c
unfolding lines
length-lines [] = omega arith
length-lines (b ∷ c) = ground (arith, length-lines c)

-- What is left over has no whole line.
pub lines-left : (c : List ℕ) → lines (lines c).1 ≡ ([], (lines c).1)
unfolding lines
lines-left [] = refl
lines-left (b ∷ c) = ground (arith, lines-left c)

pub lines-nil : lines [] ≡ ([], [])
unfolding lines
lines-nil = refl

pub append-fits :
    (r chunk : List ℕ)
    → length (r ++ chunk) ≤ server_buffer_size
    → message_buffer_append (record { contents = r }) chunk
      ≡ (record { contents = r ++ chunk }, true)
unfolding message_buffer_append
append-fits r chunk h = ground (arith, length-append r chunk)

pub length-first_line :
    (c line after : List ℕ)
    → first_line c ≡ some (line, after)
    → length c ≡ length line + suc (length after)
length-first_line c line after e =
    ap length (first_line-append c line after e) ∙ length-append line (10 ∷ after)

-- What is appended to a buffer within its array fits the array and follows what was there;
-- otherwise nothing changes. A chunk is refused exactly when it does not fit.
pub message_buffer_append-bounds :
    (b : MessageBuffer) (chunk : List ℕ)
    → length b.contents ≤ server_buffer_size
    → length chunk < 2 ^ 63
    → (length (message_buffer_append b chunk).0.contents ≤ server_buffer_size)
      × ((message_buffer_append b chunk).0.contents
          ≡ (if (message_buffer_append b chunk).1 then b.contents ++ chunk else b.contents))
      × ((message_buffer_append b chunk).1
          ≡ leb (length b.contents + length chunk) server_buffer_size)
unfolding message_buffer_append
message_buffer_append-bounds b chunk h k = ground (arith, length-append b.contents chunk)

sanitize-valid : (text : List ℕ) → message_is_valid (message_buffer_sanitize text) ≡ true
unfolding message_is_valid message_buffer_sanitize
sanitize-valid [] = refl
sanitize-valid (rp ∷ text) = ground (arith, sanitize-valid text)

valid-sanitize :
    (text : List ℕ) → message_is_valid text ≡ true → message_buffer_sanitize text ≡ text
unfolding message_is_valid message_buffer_sanitize
valid-sanitize [] h = refl
valid-sanitize (rp ∷ text) h = ground (arith, valid-sanitize text)

-- The bytes of the text that a test takes, in their order.
pub filter : (ℕ → Bool) → List ℕ → List ℕ
filter p [] = []
filter p (b ∷ text) = if p b then b ∷ filter p text else filter p text

-- The bytes that sanitizing keeps: all but NUL, backspace, tab, line feed and carriage return, of
-- which backspace, tab and line feed are next to each other.
abbrev pub is_kept : ℕ → Bool
is_kept b = not (b == 0 || (leb 8 b && leb b 10) || b == 13)

sanitize-filter : (text : List ℕ) → message_buffer_sanitize text ≡ filter is_kept text
unfolding message_buffer_sanitize filter
sanitize-filter [] = refl
sanitize-filter (rp ∷ text) = ground (arith, sanitize-filter text)

sanitize-length : (text : List ℕ) → length (message_buffer_sanitize text) ≤ length text
unfolding message_buffer_sanitize
sanitize-length [] = omega arith
sanitize-length (rp ∷ text) = ground (arith, sanitize-length text)

-- Sanitizing leaves the bytes that are neither NUL, backspace, tab, line feed nor carriage return,
-- in their order: a valid text that is no longer than the text. It changes nothing exactly when the
-- text is valid.
pub message_buffer_sanitize-valid :
    (text : List ℕ)
    → (message_buffer_sanitize text ≡ filter is_kept text)
      × (message_is_valid (message_buffer_sanitize text) ≡ true)
      × (length (message_buffer_sanitize text) ≤ length text)
      × ((message_is_valid text ≡ true) ↔ (message_buffer_sanitize text ≡ text))
message_buffer_sanitize-valid text = (
  sanitize-filter text,
  sanitize-valid text,
  sanitize-length text,
  (valid-sanitize text, λ e. rw e at (sanitize-valid text)),
)
