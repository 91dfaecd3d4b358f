-- ===== src/MessageBuffer.antt =====
-- server/src/message_buffer.c and message_buffer.h: the bytes that arrived and wait for the end of
-- their line. The first `length` bytes of `data` are the list; the rest of the array is not read.
pub mod Lines
use ojalvo_chat.Prelude.{
  ℕ, zero, suc, ◌+◌, ◌-◌, ◌%◌, ◌^◌, Bool, true, false, ◌||◌, List, [], ◌∷◌, ◌++◌, Option, none,
  some, length, take, drop, ltb, ◌==◌, if◌then◌else◌,
}
use ojalvo_chat.Message.{server_buffer_size}

pub record MessageBuffer : Type 0 where
  pub contents : List ℕ

abbrev pub message_buffer_init : MessageBuffer
message_buffer_init = record { contents = [] }

-- `false` where the function returns -1. The sum is a `size_t`.
unfoldable pub message_buffer_append : MessageBuffer → List ℕ → MessageBuffer × Bool
message_buffer_append buffer chunk =
    if ltb server_buffer_size ((length buffer.contents + length chunk) % 2 ^ 64)
    then (buffer, false)
    else (record { contents = buffer.contents ++ chunk }, true)

-- The offset of the first byte that is `c`.
memchr : List ℕ → ℕ → Option ℕ
memchr [] c = none
memchr (b ∷ bytes) c =
    let rest = memchr bytes c in
    if b == c then some 0 else (elim rest [ none ↦ none | some n ↦ some (suc n) ])

pub record Extracted : Type 0 where
  -- The string that is left in `out`.
  pub out : List ℕ
  pub out_length : ℕ
  pub buffer : MessageBuffer

cut_at : MessageBuffer → ℕ → ℕ → Extracted
cut_at buffer out_capacity raw_length = record {
  out =
      take (if ltb raw_length (out_capacity - 1) then raw_length else out_capacity - 1)
        buffer.contents;
  out_length = raw_length;
  buffer = record { contents = drop (raw_length + 1) buffer.contents };
}

-- `none` where the function returns false, and then nothing has changed.
unfoldable pub message_buffer_extract : MessageBuffer → ℕ → Option Extracted
unfolding memchr cut_at
message_buffer_extract buffer out_capacity =
    if out_capacity == 0 then none else (elim (memchr buffer.contents 10) [
      | none ↦ none
      | some raw_length ↦ some (cut_at buffer out_capacity raw_length)
    ])

-- NUL, tab, carriage return, line feed and backspace.
abbrev pub is_control : ℕ → Bool
is_control rp = rp == 0 || rp == 9 || rp == 13 || rp == 10 || rp == 8

unfoldable pub message_is_valid : List ℕ → Bool
message_is_valid [] = true
message_is_valid (rp ∷ text) = if is_control rp then false else message_is_valid text

-- The bytes that stay, in order; their number is the new length.
unfoldable pub message_buffer_sanitize : List ℕ → List ℕ
message_buffer_sanitize [] = []
message_buffer_sanitize (rp ∷ text) =
    let rest = message_buffer_sanitize text in if is_control rp then rest else rp ∷ rest
