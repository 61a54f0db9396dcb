-- ===== src/Dispatch/Written.antt =====
-- The strings that the dispatch payload holds are JSON strings (src/domain/p2p.rs): a reader of
-- JSON, written from its grammar, reads each of them back.
use wqc_node.Base.{
  ℕ, zero, suc, ◌+◌, ◌-◌, ◌*◌, ◌/◌, ◌%◌, ◌<◌, ◌≡◌, refl, ap, ◌∙◌, ◌&&◌, ◌||◌, [], ◌∷◌, ◌++◌,
  append_assoc, Option, none, some, arith, ltb, leb, ◌==◌, if◌then◌else◌,
}
use wqc_node.Base.Text.{Text}
use wqc_node.Dispatch.GoJson.{
  quote, backslash, hex_digit, escape_u, write_char, write_chars, write_go_json_string,
}

-- Between two characters, after a backslash, or inside `\uXXXX` with a count of digits to come.
data Mode : Type 0 where
  plain escaped : Mode
  hex : ℕ → ℕ → Mode

hex_value : ℕ → Option ℕ
hex_value c =
    if leb b'0' c && leb c b'9'
    then some (c - 48)
    else if leb b'a' c && leb c b'f'
    then some (c - 87)
    else if leb b'A' c && leb c b'F'
    then some (c - 55)
    else none

-- What stands after a backslash for one character.
unescape : ℕ → Option ℕ
unescape c =
    if c == quote || c == backslash || c == b'/'
    then some c
    else if c == b'b'
    then some 8
    else if c == b'f'
    then some 12
    else if c == b'n'
    then some 10
    else if c == b'r'
    then some 13
    else if c == b't'
    then some 9
    else none

abbrev push : ℕ → Option (Text × Text) → Option (Text × Text)
push c none = none
push c (some (s, rest)) = some (c ∷ s, rest)

abbrev push_some : Option ℕ → Option (Text × Text) → Option (Text × Text)
push_some none r = none
push_some (some c) r = push c r

-- The characters up to the closing quote, and what follows it. A control character may not stand
-- in a string.
read : Mode → Text → Option (Text × Text)
read plain [] = none
read plain (c ∷ s) =
    let escape = read escaped s in
    let next = push c (read plain s) in
    if c == quote
    then some ([], s)
    else if c == backslash
    then escape
    else if ltb c 0x20
    then none
    else next
read escaped [] = none
read escaped (c ∷ s) =
    let digits = read (hex 3 0) s in
    let next = push_some (unescape c) (read plain s) in if c == b'u' then digits else next
read (hex left acc) [] = none
read (hex zero acc) (c ∷ s) = elim (hex_value c) [
  | none ↦ none
  | some d ↦ push (acc * 16 + d) (read plain s)
]
read (hex (suc left) acc) (c ∷ s) = elim (hex_value c) [
  | none ↦ none
  | some d ↦ read (hex left (acc * 16 + d)) s
]

pub read_json_string : Text → Option (Text × Text)
unfolding read
read_json_string [] = none
read_json_string (c ∷ s) = if c == quote then read plain s else none

hex_value-hex_digit : (d : ℕ) → d < 16 → hex_value (hex_digit d) ≡ some d
unfolding hex_value
hex_value-hex_digit d h = ground arith

read-escape_u :
    (c : ℕ) (t : Text) → c < 65536 → read plain (escape_u c ++ t) ≡ push c (read plain t)
unfolding read
read-escape_u c t h =
    rw
      (
        hex_value-hex_digit (c / 4096 % 16) (omega arith),
        hex_value-hex_digit (c / 256 % 16) (omega arith),
        hex_value-hex_digit (c / 16 % 16) (omega arith),
        hex_value-hex_digit (c % 16) (omega arith),
      )
      (ap (λ n. push n (read plain t)) (omega arith))

read-write_char : (c : ℕ) (t : Text) → read plain (write_char c ++ t) ≡ push c (read plain t)
unfolding write_char read unescape
read-write_char c t = ground (arith, read-escape_u c t)

read-write_chars : (s rest : Text) → read plain (write_chars s ++ quote ∷ rest) ≡ some (s, rest)
unfolding write_chars
read-write_chars [] rest = unfold read in refl
read-write_chars (c ∷ s) rest =
    ap (read plain) (append_assoc (write_char c) (write_chars s) (quote ∷ rest))
    ∙ read-write_char c (write_chars s ++ quote ∷ rest)
    ∙ ap (push c) (read-write_chars s rest)

-- A string that is written is read back as it was, whatever follows it.
pub read-write_go_json_string :
    (s rest : Text) → read_json_string (write_go_json_string s ++ rest) ≡ some (s, rest)
unfolding read_json_string write_go_json_string
read-write_go_json_string s rest =
    ap (read plain) (append_assoc (write_chars s) (quote ∷ []) rest) ∙ read-write_chars s rest
