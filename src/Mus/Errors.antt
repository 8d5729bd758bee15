-- ===== src/Mus/Errors.antt =====
-- The messages of the errors of pkg/mus, internal/switchboard and io.
use vivary.Prelude.{◌++◌, Str, bytes}
use vivary.Mus.{
  Error, eof, unexpected_eof, varint_overflow, string_too_long, payload_too_large, frame_truncated,
  fault, wrap,
}

unfoldable pub error_text : Error → Str
error_text eof = bytes "EOF"
error_text unexpected_eof = bytes "unexpected EOF"
error_text varint_overflow = bytes "mus: varint overflow (>10 bytes)"
error_text string_too_long = bytes "mus: string too long"
error_text payload_too_large = bytes "mus: payload exceeds MaxPayloadBytes"
error_text frame_truncated = bytes "mus: frame truncated during payload read"
error_text (fault m) = m
error_text (wrap tag e) = tag ++ bytes ": " ++ error_text e
