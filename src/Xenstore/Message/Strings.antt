-- ===== src/Xenstore/Message/Strings.antt =====
-- Payloads of strings: `send` joins them, `parse_string_vec` splits them, `parse_string` reads one.
use krata.Prelude.{
  ℕ, ◌<◌, ◌≡◌, refl, sym, ap, ◌∙◌, true, false, some, List, [], ◌∷◌, ◌++◌, append_assoc, append-nil,
  arith, All, ◌==◌, ok,
}
use krata.Prelude.Text.Utf8.{is_utf8}
use krata.Xenstore.Sys.{XsdMessageHeader}
use krata.Xenstore.Message.{
  split_nul, cstring_of, parse_string, parse_strings, parse_string_vec, join_nul,
}

-- A string without NUL bytes that is UTF-8.
abbrev pub IsText : List ℕ → Type 0
IsText s = All (λ b. 0 < b) s × (is_utf8 s ≡ true)

parse_strings-item :
    (item rest buffer : List ℕ) (strings : List (List ℕ))
    → All (λ b. 0 < b) item
    → is_utf8 (buffer ++ item) ≡ true
    → parse_strings (item ++ 0 ∷ rest) buffer strings
      ≡ parse_strings rest [] (strings ++ (buffer ++ item) ∷ [])
unfolding parse_strings
parse_strings-item [] rest buffer strings h u =
    let whole : is_utf8 buffer ≡ true = ap is_utf8 (sym (append-nil buffer)) ∙ u in
    rw (append-nil buffer, whole, parse_strings) refl
parse_strings-item (b ∷ item) rest buffer strings h u =
    rw (nonzero b h.0, parse_strings, ← append_assoc buffer (b ∷ []) item)
      (parse_strings-item item rest (buffer ++ b ∷ []) strings h.1
        (ap is_utf8 (append_assoc buffer (b ∷ []) item) ∙ u))
  where
    nonzero : (c : ℕ) → 0 < c → (c == 0) ≡ false
    nonzero c p = ground arith

parse_strings-join_nul :
    (items : List (List ℕ)) (tail : List ℕ) (strings : List (List ℕ))
    → All IsText items
    → parse_strings (join_nul items ++ tail) [] strings ≡ parse_strings tail [] (strings ++ items)
unfolding join_nul
parse_strings-join_nul [] tail strings h = rw (append-nil strings)
parse_strings-join_nul (item ∷ items) tail strings h =
    rw (append_assoc item (0 ∷ join_nul items) tail) (
      parse_strings-item item (join_nul items ++ tail) [] strings h.0.0 h.0.1
      ∙ parse_strings-join_nul items tail (strings ++ item ∷ []) h.1
      ∙ ap (parse_strings tail []) (append_assoc strings (item ∷ []) items))

parse_strings_tail :
    (tail buffer : List ℕ) (strings : List (List ℕ))
    → All (λ b. 0 < b) tail
    → parse_strings tail buffer strings ≡ ok strings
unfolding parse_strings
parse_strings_tail [] buffer strings h = refl
parse_strings_tail (b ∷ tail) buffer strings h =
    ground (arith, parse_strings_tail tail (buffer ++ b ∷ []) strings h.1)

-- `parse_string_vec` gives back the strings that `send` joined, if they are UTF-8 and hold no NUL;
-- bytes after the last NUL are dropped without an error.
pub parse_string_vec-join_nul :
    (h : XsdMessageHeader) (items : List (List ℕ)) (tail : List ℕ)
    → All IsText items
    → All (λ b. 0 < b) tail
    → parse_string_vec (record { header = h; payload = join_nul items ++ tail }) ≡ ok items
unfolding parse_string_vec
parse_string_vec-join_nul h items tail v w =
    parse_strings-join_nul items tail [] v ∙ parse_strings_tail tail [] items w

split_nul-item : (s : List ℕ) → All (λ b. 0 < b) s → split_nul (s ++ 0 ∷ []) ≡ some (s, [])
unfolding split_nul
split_nul-item [] h = refl
split_nul-item (b ∷ s) h = ground (arith, split_nul-item s h.1)

-- `parse_string` reads a UTF-8 text without NUL bytes, with one NUL after it.
pub parse_string_text :
    (h : XsdMessageHeader) (s : List ℕ)
    → IsText s
    → parse_string (record { header = h; payload = s ++ 0 ∷ [] }) ≡ ok s
unfolding parse_string
parse_string_text h s v = rw (split_nul-item s v.0, cstring_of, v.1) refl
