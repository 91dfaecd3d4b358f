-- ===== src/Tests/Buffers.antt =====
-- The theorems about buffers, streams and options at concrete inputs.
use ojalvo_chat.Prelude.{◌+◌, ◌≤◌, ◌≡◌, true, ◌∷◌, ◌++◌, ◌↔◌, length, leb, if◌then◌else◌, arith}
use ojalvo_chat.Message.{server_buffer_size}
use ojalvo_chat.MessageBuffer.{
  message_buffer_append, message_buffer_extract, message_buffer_sanitize, message_is_valid,
}
use ojalvo_chat.MessageBuffer.Lines.{
  first_line, taken, lines, message_buffer_extract-first_line, message_buffer_append-bounds,
  message_buffer_sanitize-valid, filter, is_kept,
}
use ojalvo_chat.Server.Monad.{◌>>◌, ◌>>=◌, pure}
use ojalvo_chat.Client.{handle_client, extract_loop}
use ojalvo_chat.Client.Stream.{
  handle_lines, left_over, stream, extract_loop-lines, handle_client-lines,
}
use ojalvo_chat.Options.{server_resolve_port}
use ojalvo_chat.Options.Port.{server_resolve_port-bounds}
use ojalvo_chat.Tests.Json.{cjson_calls}
use ojalvo_chat.Tests.World.{talking, ana, glib_list, all_but_five}
use ojalvo_chat.Tests.Facts.{two_chunks, two_chunks-Fit, half_sent, too_high, port_given}

extract_loop-lines_example :
    extract_loop 5 half_sent 4 talking
    ≡ (handle_lines (lines half_sent.contents).0 4 >>= left_over (lines half_sent.contents).1)
        talking
extract_loop-lines_example =
    extract_loop-lines 5 half_sent.contents 4 talking (omega arith) (omega arith)

handle_client-lines_example :
    handle_client two_chunks 4 talking
    ≡ (handle_lines (lines (stream two_chunks)).0 4 >> pure tt) talking
handle_client-lines_example = handle_client-lines two_chunks 4 talking two_chunks-Fit

extract-first_line_example :
    message_buffer_extract half_sent 64 ≡ taken (first_line half_sent.contents)
extract-first_line_example =
    message_buffer_extract-first_line half_sent 64 (omega arith) (omega arith)

append-bounds_example :
    (length (message_buffer_append half_sent ana).0.contents ≤ server_buffer_size)
    × ((message_buffer_append half_sent ana).0.contents ≡ (
        if (message_buffer_append half_sent ana).1
        then half_sent.contents ++ ana
        else half_sent.contents))
    × ((message_buffer_append half_sent ana).1
        ≡ leb (length half_sent.contents + length ana) server_buffer_size)
append-bounds_example = message_buffer_append-bounds half_sent ana (omega arith) (omega arith)

sanitize-valid_example :
    (message_buffer_sanitize (7 ∷ ana) ≡ filter is_kept (7 ∷ ana))
    × (message_is_valid (message_buffer_sanitize (7 ∷ ana)) ≡ true)
    × (length (message_buffer_sanitize (7 ∷ ana)) ≤ length (7 ∷ ana))
    × ((message_is_valid (7 ∷ ana) ≡ true) ↔ (message_buffer_sanitize (7 ∷ ana) ≡ 7 ∷ ana))
sanitize-valid_example = message_buffer_sanitize-valid (7 ∷ ana)

server_resolve_port-bounds_example :
    (1 ≤ server_resolve_port ⦃L = too_high⦄ port_given)
    × (server_resolve_port ⦃L = too_high⦄ port_given ≤ 65535)
server_resolve_port-bounds_example = server_resolve_port-bounds ⦃L = too_high⦄ port_given
