-- ===== src/Dispatch/GoJson.antt =====
-- JSON as Go's `encoding/json` writes it (src/domain/p2p.rs). A writer returns what the source
-- appends to its buffer.
use wqc_node.Base.{
  ℕ, ◌+◌, ◌-◌, ◌/◌, ◌%◌, ◌^◌, Bool, true, false, not, ◌&&◌, ◌||◌, List, [], ◌∷◌, ◌++◌, Option, none,
  some, Result, ok, err, ◌>>=◌, ltb, leb, ◌==◌, if◌then◌else◌, length, take, drop, replicate,
  filter,
}
use wqc_node.Base.Bytes.{Bytes, as_bytes}
use wqc_node.Base.Decimal.{to_decimal, parse_signed}
use wqc_node.Base.Float.{F64, Float}
use wqc_node.Base.Int.{ℤ, pos, negsuc, neg_part, pos_part, sub_ℕ}
use wqc_node.Base.Text.{Text, text, strip_char, split_once, trim_start_char, trim_end_char}
use wqc_node.Json.{
  Value, Items, Fields, Number, null, boolean, number, string, array, object, no_items, item,
  no_fields, field,
}
use wqc_node.Validation.{Gate}

abbrev pub quote : ℕ
quote = b'"'

abbrev pub backslash : ℕ
backslash = b'\\'

-- A digit of `{:x}`.
abbrev pub hex_digit : ℕ → ℕ
hex_digit d = if ltb d 10 then 48 + d else 87 + d

-- `\u{:04x}`, of a code point below 2^16.
abbrev pub escape_u : ℕ → Text
escape_u c =
    backslash
    ∷ b'u'
    ∷ hex_digit (c / 4096 % 16)
    ∷ hex_digit (c / 256 % 16)
    ∷ hex_digit (c / 16 % 16)
    ∷ hex_digit (c % 16)
    ∷ []

-- What the loop of `write_go_json_string` writes for a character.
unfoldable pub write_char : ℕ → Text
write_char c =
    if c == quote
    then backslash ∷ quote ∷ []
    else if c == backslash
    then backslash ∷ backslash ∷ []
    else if c == 8
    then backslash ∷ b'b' ∷ []
    else if c == 12
    then backslash ∷ b'f' ∷ []
    else if c == 10
    then backslash ∷ b'n' ∷ []
    else if c == 13
    then backslash ∷ b'r' ∷ []
    else if c == 9
    then backslash ∷ b't' ∷ []
    else if c == b'<' || c == b'>' || c == b'&' || c == 0x2028 || c == 0x2029
    then escape_u c
    else if ltb c 0x20
    then escape_u c
    else c ∷ []

unfoldable pub write_chars : Text → Text
unfolding write_char
write_chars [] = []
write_chars (c ∷ s) = write_char c ++ write_chars s

unfoldable pub write_go_json_string : Text → Text
unfolding write_chars
write_go_json_string s = quote ∷ (write_chars s ++ quote ∷ [])

-- The crate ryu, and what serde_json and the standard library do with floats.
pub record FloatText : Type 0 where
  -- `Number::as_f64`
  pub as_f64 : Number → Option F64
  -- `ryu::Buffer::format_finite`
  pub format_finite : F64 → Text
  -- `{:.1}` and `{}`
  pub display_fixed : F64 → Text
  pub display : F64 → Text
  -- `val == (val as i64) as f64`
  pub is_whole : F64 → Bool

-- The sign, the significant digits and the exponent of the first digit.
pub record DecimalDigits : Type 0 where
  pub sign : Text
  pub digits : Text
  pub exp : ℤ

abbrev pub index_of_point : Text → ℕ
index_of_point mantissa = length (split_once b'.' mantissa).0

abbrev pub sign_and_rest : Text → Text × Text
sign_and_rest t = elim (strip_char b'-' t) [ none ↦ ([], t) | some rest ↦ (text "-", rest) ]

abbrev pub unwrap_or_zero : Option ℤ → ℤ
unwrap_or_zero none = pos 0
unwrap_or_zero (some n) = n

abbrev pub exponent_of : Option Text → ℤ
exponent_of none = pos 0
exponent_of (some t) = unwrap_or_zero (parse_signed (2 ^ 31 - 1) t)

-- The sum of the exponents is exact here; ryu's are far from the ends of an `i32`.
unfoldable pub decimal_digits : Text → DecimalDigits
unfolding split_once trim_start_char parse_signed
decimal_digits t =
    let (sign, rest) = sign_and_rest t in
    let (mantissa, exp_part) = split_once b'e' rest in
    let all = filter (λ c. not (c == b'.')) mantissa in
    let leading = length all - length (trim_start_char b'0' all) in
    let e = exponent_of exp_part in
    record {
      sign = sign;
      digits = trim_end_char b'0' (trim_start_char b'0' all);
      exp = sub_ℕ (index_of_point mantissa + pos_part e) (1 + leading + neg_part e);
    }

unfoldable pub plain_decimal : Text → ℤ → Text
plain_decimal digits (negsuc n) = text "0." ++ replicate n b'0' ++ digits
plain_decimal digits (pos n) =
    let int_len = n + 1 in
    if leb (length digits) int_len
    then digits ++ replicate (int_len - length digits) b'0'
    else take int_len digits ++ b'.' ∷ drop int_len digits

-- `d.ddd`, or the one digit.
abbrev pub mantissa_of : Text → Text
mantissa_of digits = if length digits == 1 then digits else take 1 digits ++ b'.' ∷ drop 1 digits

-- `{exp:02}` of a number that is not negative.
abbrev pub two_digits : ℕ → Text
two_digits n = if ltb n 10 then b'0' ∷ to_decimal n else to_decimal n

abbrev pub scientific : Text → ℤ → Text
scientific digits (negsuc n) = mantissa_of digits ++ text "e-" ++ to_decimal (n + 1)
scientific digits (pos n) = mantissa_of digits ++ text "e+" ++ two_digits n

-- The bits of 1e-6 and of 1e21.
abbrev pub smallest_plain : F64
smallest_plain = 0x3EB0C6F7A0B5ED8D

abbrev pub largest_plain : F64
largest_plain = 0x444B1AE4D6E2EF50

module _ (fl : Float) (ft : FloatText) where
  unfoldable pub go_json_float : F64 → Text
  unfolding decimal_digits plain_decimal to_decimal
  go_json_float f =
      if f % 2 ^ 63 == 0
      then (if leb (2 ^ 63) f then text "-0" else text "0")
      else let d = decimal_digits (ft.format_finite f) in
        let abs = f % 2 ^ 63 in
        d.sign
        ++ (if fl.fle smallest_plain abs && fl.flt abs largest_plain
            then plain_decimal d.digits d.exp
            else scientific d.digits d.exp)

  -- A number that is not a float64 is the error. The flag tells the first item.
  unfoldable mutual
    pub write_go_json_value : Value → Result Text Number
    write_go_json_value null = ok (text "null")
    write_go_json_value (boolean b) = ok (if b then text "true" else text "false")
    write_go_json_value (number n) = elim (ft.as_f64 n) [
      | none ↦ err n
      | some f ↦ ok (go_json_float f)
    ]
    write_go_json_value (string s) = ok (write_go_json_string s)
    write_go_json_value (array xs) = write_items true xs >>= λ s. ok (b'[' ∷ (s ++ b']' ∷ []))
    write_go_json_value (object fs) = write_fields true fs >>= λ s. ok (b'{' ∷ (s ++ b'}' ∷ []))

    pub write_items : Bool → Items → Result Text Number
    write_items first no_items = ok []
    write_items first (item x xs) = write_go_json_value x >>= λ s.
        write_items false xs >>= λ rest. ok ((if first then [] else b',' ∷ []) ++ s ++ rest)

    pub write_fields : Bool → Fields → Result Text Number
    write_fields first no_fields = ok []
    write_fields first (field k v fs) = write_go_json_value v >>= λ s.
        write_fields false fs >>= λ rest.
        ok ((if first then [] else b',' ∷ []) ++ write_go_json_string k ++ b':' ∷ (s ++ rest))

  -- The loop over the gates.
  unfoldable pub write_gates : Bool → List Gate → Result Text Number
  write_gates first [] = ok []
  write_gates first (g ∷ gs) = write_go_json_value g.params >>= λ params.
      write_gates false gs >>= λ rest. ok (
        (if first then [] else b',' ∷ [])
        ++ text "{\"type\":"
        ++ write_go_json_string g.kind
        ++ text ",\"params\":"
        ++ params
        ++ b'}' ∷ rest)

  unfoldable pub circuit_signing_json : List Gate → Result Bytes Number
  unfolding write_gates as_bytes
  circuit_signing_json circuit =
      write_gates true circuit >>= λ s. ok (as_bytes (b'[' ∷ (s ++ b']' ∷ [])))

  -- `format_go_float`
  unfoldable pub format_go_float : F64 → Text
  format_go_float val = if ft.is_whole val then ft.display_fixed val else ft.display val
