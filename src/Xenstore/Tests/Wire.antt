-- ===== src/Xenstore/Tests/Wire.antt =====
-- Little-endian words as byteorder documents them, and the wire format's theorems at them.
use krata.Prelude.{
  ℕ, ◌+◌, ◌*◌, ◌/◌, ◌%◌, ◌<◌, ◌≡◌, refl, Option, none, some, List, [], ◌∷◌, ◌++◌, arith, length, ok,
}
use krata.Prelude.Text.Utf8.{is_utf8}
use krata.Xenstore.Sys.{Error, XsdMessageHeader, LittleEndianApi, IsHeader}
use krata.Xenstore.Message.{XsdMessage, process_rx, parse_string_vec, join_nul}
use krata.Xenstore.Message.Strings.{IsText, parse_string_vec-join_nul}
use krata.Xenstore.Message.Framing.{IsFramed, compose_all, process_rx-compose}

pub read_word : List ℕ → Option (ℕ × List ℕ)
read_word [] = none
read_word (a ∷ []) = none
read_word (a ∷ b ∷ []) = none
read_word (a ∷ b ∷ c ∷ []) = none
read_word (a ∷ b ∷ c ∷ d ∷ rest) = some (a + b * 256 + c * 65536 + d * 16777216, rest)

pub read_word_short : (bs : List ℕ) → length bs < 4 → read_word bs ≡ none
unfolding read_word
read_word_short [] h = refl
read_word_short (a ∷ []) h = refl
read_word_short (a ∷ b ∷ []) h = refl
read_word_short (a ∷ b ∷ c ∷ []) h = refl
read_word_short (a ∷ b ∷ c ∷ d ∷ rest) h = absurd (omega arith)

pub read_word_whole :
    (b0 b1 b2 b3 : ℕ) (rest : List ℕ)
    → read_word (b0 ∷ b1 ∷ b2 ∷ b3 ∷ rest) ≡ some (b0 + b1 * 256 + b2 * 65536 + b3 * 16777216, rest)
unfolding read_word
read_word_whole b0 b1 b2 b3 rest = refl

abbrev pub le : LittleEndianApi
le = record {
  write_u32 = λ n. (n % 256) ∷ (n / 256 % 256) ∷ (n / 65536 % 256) ∷ (n / 16777216) ∷ [];
  read_u32 = read_word;
  write_u32_lem = λ n h. refl;
  read_u32_lem = read_word_whole;
  read_u32_short = read_word_short;
}

abbrev pub header : XsdMessageHeader
header = record { typ = 2; req = 7; tx = 0; len = 3 }

abbrev pub message : XsdMessage
message = record { header = header; payload = 97 ∷ 98 ∷ 0 ∷ [] }

pub header-IsHeader : IsHeader header
header-IsHeader = record {
  typ_lt = omega arith;
  req_lt = omega arith;
  tx_lt = omega arith;
  len_lt = omega arith;
}

message-IsFramed : IsFramed message
message-IsFramed = record { header_valid = header-IsHeader; len_eq = refl; fits = omega arith }

abbrev long_header : XsdMessageHeader
long_header = record { typ = 2; req = 7; tx = 0; len = 4097 }

long_header-IsHeader : IsHeader long_header
long_header-IsHeader = record {
  typ_lt = omega arith;
  req_lt = omega arith;
  tx_lt = omega arith;
  len_lt = omega arith;
}

process_rx-compose_example :
    process_rx le 3 1 (compose_all le (message ∷ message ∷ []))
    ≡ (message ∷ [], some Error.send_error)
process_rx-compose_example =
    process_rx-compose le 3 1 (message ∷ message ∷ []) (message-IsFramed, (message-IsFramed, tt))
      (omega arith)

ab-IsText : IsText (97 ∷ 98 ∷ [])
unfolding is_utf8
ab-IsText = ((omega arith, (omega arith, tt)), refl)

parse_string_vec-join_nul_example :
    parse_string_vec (record {
      header = header;
      payload = join_nul ((97 ∷ 98 ∷ []) ∷ (97 ∷ 98 ∷ []) ∷ []) ++ 7 ∷ [];
    })
    ≡ ok ((97 ∷ 98 ∷ []) ∷ (97 ∷ 98 ∷ []) ∷ [])
parse_string_vec-join_nul_example =
    parse_string_vec-join_nul header ((97 ∷ 98 ∷ []) ∷ (97 ∷ 98 ∷ []) ∷ []) (7 ∷ [])
      (ab-IsText, (ab-IsText, tt)) (omega arith, tt)
