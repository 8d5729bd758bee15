-- ===== src/Mus/Tests.antt =====
-- The integers and strings of pkg/mus on concrete bytes.
use vivary.Prelude.{◌≡◌, refl, true, false, [], ◌∷◌, ◌++◌, arith, length, bytes}
use vivary.Mus.{
  Source, broken, closed, ok, err, string_too_long, append_varint, varint_len, read_varint,
  read_string,
}
use vivary.Mus.Varint.{length-append_varint}
use vivary.Mus.Read.{read_varint_slow-eq-byte, read_varint-append_varint}
use vivary.Mus.Strings.{string_bytes, varint_bytes, read_string-string_bytes, read_string-too_long}
use vivary.Mus.{read_varint_slow, read_varint_byte}

abbrev buffered : Source
buffered = record { byte_reader = true; ending = closed }

abbrev socket : Source
socket = record { byte_reader = false; ending = broken (bytes "reset") }

append_varint_300 : append_varint [] 300 ≡ 172 ∷ 2 ∷ []
unfolding append_varint
append_varint_300 = refl

read_varint-append_varint_example :
    read_varint socket (append_varint [] 300 ++ (7 ∷ [])) ≡ ok (300, 7 ∷ [])
read_varint-append_varint_example = read_varint-append_varint 300 socket (7 ∷ []) (omega arith)

read_varint_slow-eq-byte_sample :
    read_varint_slow socket (172 ∷ []) ≡ read_varint_byte socket (172 ∷ [])
read_varint_slow-eq-byte_sample = read_varint_slow-eq-byte socket (172 ∷ [])

length-append_varint_sample : length (append_varint [] 300) ≡ varint_len 300
length-append_varint_sample = length-append_varint 300 (omega arith)

read_string-string_bytes_sample :
    read_string 8 buffered (string_bytes (bytes "ward") ++ (7 ∷ [])) ≡ ok (bytes "ward", 7 ∷ [])
read_string-string_bytes_sample =
    read_string-string_bytes 8 (bytes "ward") buffered (7 ∷ []) (omega arith) (omega arith)

read_string-too_long_sample :
    read_string 3 buffered (varint_bytes 4 ++ (7 ∷ [])) ≡ err string_too_long
read_string-too_long_sample = read_string-too_long 3 4 buffered (7 ∷ []) (omega arith) (omega arith)
