-- ===== src/Tests/Commands.antt =====
-- The properties of the command protocol on concrete inputs.
use provider_infrastructure.Prelude.{
  ℕ, ◌≤◌, ◌≡◌, ◌↔◌, refl, false, List, [], ◌∷◌, none, some, pos, negsuc, length, exceeds, ltb,
}
use provider_infrastructure.Text.{
  codes, byte_len, trim_space, contains_rune, trim_prefix, hex_decodes,
}
use provider_infrastructure.Command.{
  max_timeout, max_output, validate_request, normalize_source_digest, bounded_exec_timeout,
  bounded_exec_output, bad_timeout_ms, bad_timeout,
}
use provider_infrastructure.Command.Limits.{accepted-is_bounded}
use provider_infrastructure.Command.Accepted.{IsAcceptable, validate_request_iff}
use provider_infrastructure.Command.Output.{new_buffer, take, more, end_of_file, write, read_from}
use provider_infrastructure.Command.Output.Stream.{received, has_failed, read_from-new_buffer}
use provider_infrastructure.Tests.Values.{command}

command_accepted : validate_request command ≡ none
unfolding validate_request contains_rune byte_len trim_space normalize_source_digest trim_prefix
    hex_decodes
command_accepted = refl

late_command_refused :
    validate_request (record command { timeout_ms = pos 120_001 }) ≡ some bad_timeout
unfolding validate_request contains_rune byte_len trim_space normalize_source_digest trim_prefix
    hex_decodes
late_command_refused = refl

-- A timeout whose product in nanoseconds wraps is accepted, and the effective one is negative.
wrapped_timeout :
    (validate_request (record command { timeout_ms = pos 9_223_372_036_855 }) ≡ none)
    × (bounded_exec_timeout (pos 9_223_372_036_855) ≡ negsuc 9_223_372_036_854_551_615)
unfolding validate_request contains_rune byte_len trim_space normalize_source_digest trim_prefix
    hex_decodes bounded_exec_timeout
wrapped_timeout = (refl, refl)

validate_request_iff_example : (validate_request command ≡ none) ↔ IsAcceptable command
validate_request_iff_example = validate_request_iff command

accepted-is_bounded_example :
    (exceeds (bounded_exec_timeout command.timeout_ms) max_timeout ≡ false)
    × ((n : ℕ) × ((bounded_exec_output command.max_output_bytes ≡ pos n)
          × (1 ≤ n)
          × (n ≤ max_output)))
accepted-is_bounded_example = accepted-is_bounded command command_accepted

abbrev reads : List (List ℕ × provider_infrastructure.Command.Output.Ending)
reads = (codes "abc", more) ∷ (codes "de", end_of_file) ∷ []

read_from_run : (read_from 0 (new_buffer 4) reads).2.stored ≡ codes "abcd"
unfolding read_from new_buffer write
read_from_run = refl

read_from-new_buffer_example :
    ((read_from 0 (new_buffer 4) reads).0 ≡ length (received reads))
    × ((read_from 0 (new_buffer 4) reads).1 ≡ has_failed reads)
    × ((read_from 0 (new_buffer 4) reads).2.stored ≡ take 4 (received reads))
    × ((read_from 0 (new_buffer 4) reads).2.truncated ≡ ltb 4 (length (received reads)))
read_from-new_buffer_example = read_from-new_buffer 4 reads
