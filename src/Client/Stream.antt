-- ===== src/Client/Stream.antt =====
-- The client's thread handles the lines of the stream in order, whatever chunks it arrives in.
use ojalvo_chat.Prelude.{
  ℕ, zero, suc, ◌+◌, ◌≤◌, ◌<◌, ◌≡◌, refl, sym, ap, ◌∙◌, fun_ext, Bool, true, false, List, [], ◌∷◌,
  ◌++◌, Option, none, some, length, if◌then◌else◌, arith, Option-cases, inl, inr,
}
use ojalvo_chat.Glib.{Glib}
use ojalvo_chat.Cjson.{Cjson}
use ojalvo_chat.Message.{server_buffer_size}
use mathlib.Core.List.{append_assoc, append-nil}
use ojalvo_chat.MessageBuffer.{MessageBuffer}
use ojalvo_chat.MessageBuffer.Lines.{
  first_line, from_first, lines, lines-first_line, message_buffer_extract-first_line,
  length-first_line, lines-append, taken, lines-nil, lines-left, append-fits,
}
use ojalvo_chat.Server.{Server, Handler}
use ojalvo_chat.Server.Monad.{Network, Outcome, Action, done, fault, continue, pure, ◌>>=◌, ◌>>◌}
use ojalvo_chat.Client.{handle_line, extract_loop, receive_loop, handle_client}

continue_assoc :
    {S A B D : Type 0} (m : Outcome S A) (f : A → Action S B) (g : B → Action S D)
    → continue (continue m f) g ≡ continue m (λ a s. continue (f a s) g)
unfolding continue
continue_assoc (done a s) f g = refl
continue_assoc (fault e s) f g = refl

module _ ⦃G : Glib⦄ ⦃C : Cjson⦄ ⦃N : Network⦄ where
  -- The lines in order, up to one at which the thread returns.
  pub handle_lines : List (List ℕ) → ℕ → Handler Bool
  handle_lines [] client_fd = pure true
  handle_lines (line ∷ rest) client_fd = do
    go_on ← handle_line line client_fd
    let more = handle_lines rest client_fd
    if go_on then more else pure false

  -- The buffer that is left, if the thread goes on.
  abbrev pub left_over : List ℕ → Bool → Handler (Option MessageBuffer)
  left_over r go_on = pure (if go_on then some (record { contents = r }) else none)

  whole_lines : (c : List ℕ) → first_line c ≡ none → lines c ≡ ([], c)
  unfolding from_first
  whole_lines c e = lines-first_line c ∙ ap (from_first c) e

  split_lines :
      (c line after : List ℕ)
      → first_line c ≡ some (line, after)
      → lines c ≡ (line ∷ (lines after).0, (lines after).1)
  unfolding from_first
  split_lines c line after e = lines-first_line c ∙ ap (from_first c) e

  -- What one turn of the inner loop leaves to the next.
  next_line :
      (go_on : Bool) (turn : Handler (Option MessageBuffer)) (rest : Handler Bool) (r : List ℕ)
      (t : Server)
      → (go_on ≡ true → turn t ≡ (rest >>= left_over r) t)
      → (if go_on then turn else pure none) t
        ≡ continue ((if go_on then rest else pure false) t) (left_over r)
  unfolding continue
  next_line true turn rest r t h = h refl
  next_line false turn rest r t h = refl

  -- With more fuel than the buffer has bytes, and a buffer that is no longer than its array, the
  -- inner loop handles all whole lines of the buffer in order, unless the thread returns at one,
  -- and leaves the bytes after the last.
  pub extract_loop-lines :
      (fuel : ℕ) (c : List ℕ) (fd : ℕ) (s : Server)
      → length c < fuel
      → length c ≤ server_buffer_size
      → extract_loop fuel (record { contents = c }) fd s
        ≡ (handle_lines (lines c).0 fd >>= left_over (lines c).1) s
  unfolding extract_loop handle_lines continue
  extract_loop-lines zero c fd s h k = absurd (omega arith)
  extract_loop-lines (suc fuel) c fd s h k = elim (Option-cases (first_line c)) [
    | inl e ↦
        rw
          (
            message_buffer_extract-first_line (record { contents = c }) server_buffer_size k
                  (omega arith)
                ∙ ap taken e,
            whole_lines c e,
            extract_loop,
          )
          refl
    | inr ((line, after), e) ↦
        rw
          (
            message_buffer_extract-first_line (record { contents = c }) server_buffer_size k
                  (omega arith)
                ∙ ap taken e,
            split_lines c line after e,
            extract_loop,
          )
          (ap (continue (handle_line line fd s)) (
              fun_ext λ go_on. fun_ext λ t. next_line go_on _ _ _ t λ _.
                extract_loop-lines fuel after fd t (omega (arith, length-first_line c line after e))
                  (omega (arith, length-first_line c line after e)))
            ∙ sym (continue_assoc (handle_line line fd s) _ _))
  ]

  next_append :
      (go_on : Bool) (m n k : Handler Bool) (t : Server)
      → m t ≡ continue (n t) (λ go_on. if go_on then k else pure false)
      → (if go_on then m else pure false) t
        ≡ continue ((if go_on then n else pure false) t) (λ go_on. if go_on then k else pure false)
  unfolding continue
  next_append true m n k t h = h
  next_append false m n k t h = refl

  handle_lines-append :
      (ls ls' : List (List ℕ)) (fd : ℕ) (s : Server)
      → handle_lines (ls ++ ls') fd s
        ≡ continue
            (handle_lines ls fd s)
            (λ go_on. if go_on then handle_lines ls' fd else pure false)
  unfolding handle_lines continue
  handle_lines-append [] ls' fd s = refl
  handle_lines-append (l ∷ ls) ls' fd s =
      ap (continue (handle_line l fd s))
        (fun_ext λ go_on. fun_ext λ t. next_append go_on _ _ _ t (handle_lines-append ls ls' fd t))
      ∙ sym (continue_assoc (handle_line l fd s) _ _)

  abbrev pub stream : List (List ℕ) → List ℕ
  stream [] = []
  stream (chunk ∷ chunks) = chunk ++ stream chunks

  -- No chunk overflows the buffer, which holds `r` at first.
  abbrev pub Fit : List ℕ → List (List ℕ) → Type 0
  Fit r [] = Unit {0}
  Fit r (chunk ∷ chunks) =
      (length (r ++ chunk) ≤ server_buffer_size) × Fit (lines (r ++ chunk)).1 chunks

  -- What the rest of the stream does after the lines of one chunk.
  rest_of_stream :
      (chunks : List (List ℕ)) (r : List ℕ) (fd : ℕ) (go_on : Bool) (t : Server)
      → receive_loop chunks (record { contents = r }) fd t
        ≡ (handle_lines (lines (r ++ stream chunks)).0 fd >> pure tt) t
      → continue
          (left_over r go_on t)
          (λ left. elim left [ none ↦ pure tt | some buffer ↦ receive_loop chunks buffer fd ])
        ≡ continue
            ((if go_on then handle_lines (lines (r ++ stream chunks)).0 fd else pure false) t)
            (λ _. pure tt)
  unfolding continue
  rest_of_stream chunks r fd true t h = h
  rest_of_stream chunks r fd false t h = refl

  lines-stream :
      (r chunk rest : List ℕ)
      → (lines (r ++ (chunk ++ rest))).0
        ≡ (lines (r ++ chunk)).0 ++ (lines ((lines (r ++ chunk)).1 ++ rest)).0
  lines-stream r chunk rest =
      ap (λ c. (lines c).0) (sym (append_assoc r chunk rest))
      ∙ ap (λ p. p.0) (lines-append (r ++ chunk) rest)

  receive_loop-lines :
      (chunks : List (List ℕ)) (r : List ℕ) (fd : ℕ) (s : Server)
      → Fit r chunks
      → lines r ≡ ([], r)
      → receive_loop chunks (record { contents = r }) fd s
        ≡ (handle_lines (lines (r ++ stream chunks)).0 fd >> pure tt) s
  unfolding receive_loop handle_lines continue
  receive_loop-lines [] r fd s h e = rw (append-nil r, e) refl
  receive_loop-lines (chunk ∷ chunks) r fd s (h, hs) e =
      rw
        (
          append-fits r chunk h,
          extract_loop-lines (server_buffer_size + 1) (r ++ chunk) fd s (omega arith) h,
          lines-stream r chunk (stream chunks),
          handle_lines-append (lines (r ++ chunk)).0
              (lines ((lines (r ++ chunk)).1 ++ stream chunks)).0 fd s,
        )
        (continue_assoc (handle_lines (lines (r ++ chunk)).0 fd s) _ _
          ∙ ap (continue (handle_lines (lines (r ++ chunk)).0 fd s)) (
              fun_ext λ go_on. fun_ext λ t.
                rest_of_stream chunks (lines (r ++ chunk)).1 fd go_on t (
                  receive_loop-lines chunks (lines (r ++ chunk)).1 fd t hs
                    (lines-left (r ++ chunk))))
          ∙ sym (continue_assoc (handle_lines (lines (r ++ chunk)).0 fd s) _ _))

  -- If no chunk overflows the buffer, the thread of a client handles the whole lines of the bytes
  -- it received, in order, up to one at which it returns; how the bytes were cut into chunks makes
  -- no difference.
  pub handle_client-lines :
      (chunks : List (List ℕ)) (fd : ℕ) (s : Server)
      → Fit [] chunks
      → handle_client chunks fd s ≡ (handle_lines (lines (stream chunks)).0 fd >> pure tt) s
  unfolding handle_client
  handle_client-lines chunks fd s h = receive_loop-lines chunks [] fd s h lines-nil
