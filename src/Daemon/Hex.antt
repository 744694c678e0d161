-- ===== src/Daemon/Hex.antt =====
-- `encode_hex` (media_auth.rs, ancs_groups.rs and conversations.rs hold a copy each) and the
-- `decode_hex` of media_auth.rs.
use analogconnect.Base.{
  ℕ, ◌+◌, ◌-◌, ◌*◌, ◌/◌, ◌%◌, ◌<◌, ◌≡◌, refl, ap, ◌∙◌, Bool, true, false, not, ◌||◌, ◌&&◌, Option,
  none, some, List, [], ◌∷◌, map, length, replicate, ltb, leb, ◌==◌, inl, inr, Bool-cases,
  Option-cases, if◌then◌else◌, arith,
}
use analogconnect.Base.Text.{Text, as_bytes, len, is_ascii, as_bytes_of_ascii, to_ascii_lowercase}
use analogconnect.Base.Words.{IsBytes}

-- `HEX[n]` of the table "0123456789abcdef".
unfoldable pub hex_digit : ℕ → ℕ
hex_digit n = if ltb n 10 then b'0' + n else b'a' + n - 10

-- `byte >> 4` and `byte & 0x0f` of a byte are its quotient and remainder by 16.
unfoldable pub encode_hex : List ℕ → Text
unfolding hex_digit
encode_hex [] = []
encode_hex (byte ∷ bytes) = hex_digit (byte / 16) ∷ hex_digit (byte % 16) ∷ encode_hex bytes

unfoldable pub decode_nibble : ℕ → Option ℕ
decode_nibble value =
    if leb b'0' value && leb value b'9'
    then some (value - b'0')
    else if leb b'a' value && leb value b'f'
    then some (value - b'a' + 10)
    else if leb b'A' value && leb value b'F'
    then some (value - b'A' + 10)
    else none

abbrev join : Option ℕ → Option ℕ → Option (List ℕ) → Option (List ℕ)
join (some high) (some low) (some rest) = some ((high * 16 + low) ∷ rest)
join high low rest = none

-- `chunks_exact(2)` decoded pair by pair; `high << 4 | low` joins disjoint bits.
unfoldable pub decode_pairs : List ℕ → Option (List ℕ)
unfolding decode_nibble
decode_pairs [] = some []
decode_pairs (a ∷ []) = some []
decode_pairs (a ∷ b ∷ rest) = join (decode_nibble a) (decode_nibble b) (decode_pairs rest)

abbrev decoded_or_zero : ℕ → Option (List ℕ) → List ℕ × Bool
decoded_or_zero n none = (replicate n 0, false)
decoded_or_zero n (some bytes) = (bytes, true)

unfoldable pub decode_hex : ℕ → Text → List ℕ × Bool
unfolding decode_pairs len
decode_hex n encoded =
    if not (len encoded == n * 2) || not (is_ascii encoded)
    then (replicate n 0, false)
    else decoded_or_zero n (decode_pairs (as_bytes encoded))

pub decode_nibble-hex_digit : (n : ℕ) → leb 16 n ≡ false → decode_nibble (hex_digit n) ≡ some n
unfolding decode_nibble hex_digit
decode_nibble-hex_digit n h = ground arith

pub hex_digit_ascii : (n : ℕ) → leb 16 n ≡ false → ltb (hex_digit n) 0x80 ≡ true
unfolding hex_digit
hex_digit_ascii n h = ground arith

pub encode_hex_ascii : (bs : List ℕ) → IsBytes bs → is_ascii (encode_hex bs) ≡ true
unfolding encode_hex
encode_hex_ascii [] h = refl
encode_hex_ascii (b ∷ bs) h =
    ground (arith, hex_digit_ascii (b / 16), hex_digit_ascii (b % 16), encode_hex_ascii bs)

pub length-encode_hex : (bs : List ℕ) → length (encode_hex bs) ≡ length bs * 2
unfolding encode_hex
length-encode_hex [] = refl
length-encode_hex (b ∷ bs) = omega (arith, length-encode_hex bs)

decode_pairs-encode_hex : (bs : List ℕ) → IsBytes bs → decode_pairs (encode_hex bs) ≡ some bs
unfolding decode_pairs encode_hex
decode_pairs-encode_hex [] h = refl
decode_pairs-encode_hex (b ∷ bs) h =
    let high = decode_nibble-hex_digit (b / 16) (let small = h.0 in ground arith) in
    let low = decode_nibble-hex_digit (b % 16) (ground arith) in
    rw (high, low, decode_pairs-encode_hex bs h.1) (ap (λ k. some (k ∷ bs)) (omega arith))

-- What is encoded from `n` bytes decodes to those bytes, and is accepted.
pub decode_hex-encode_hex :
    (n : ℕ) (bs : List ℕ) → IsBytes bs → length bs ≡ n → decode_hex n (encode_hex bs) ≡ (bs, true)
unfolding decode_hex
decode_hex-encode_hex n bs h e =
    let ascii = encode_hex_ascii bs h in
    let size : (length (encode_hex bs) == n * 2) ≡ true = ground (arith, length-encode_hex bs) in
    rw (as_bytes_of_ascii (encode_hex bs) ascii, size, ascii, decode_pairs-encode_hex bs h)

hex_digit-decode_nibble :
    (c n : ℕ) → decode_nibble c ≡ some n → (hex_digit n ≡ to_ascii_lowercase c) × (n < 16)
unfolding decode_nibble hex_digit to_ascii_lowercase
hex_digit-decode_nibble c n h = ground arith

join-eq-some :
    (a b : Option ℕ) (r : Option (List ℕ)) (bs : List ℕ)
    → join a b r ≡ some bs
    → (high low : ℕ) × (rest : List ℕ) × (a ≡ some high)
      × (b ≡ some low)
      × (r ≡ some rest)
      × (bs ≡ (high * 16 + low) ∷ rest)
join-eq-some (some high) (some low) (some rest) bs h = (high, low, rest, refl, refl, refl, cc)
join-eq-some none b r bs h = absurd (ground arith)
join-eq-some (some high) none r bs h = absurd (ground arith)
join-eq-some (some high) (some low) none bs h = absurd (ground arith)

encode_hex-decode_pairs :
    (n : ℕ) (s : Text) (bs : List ℕ)
    → length s ≡ n * 2
    → decode_pairs s ≡ some bs
    → encode_hex bs ≡ map to_ascii_lowercase s
unfolding decode_pairs encode_hex
encode_hex-decode_pairs n [] bs e h = let nothing : bs ≡ [] = cc in rw nothing
encode_hex-decode_pairs n (a ∷ []) bs e h = absurd (omega arith)
encode_hex-decode_pairs n (a ∷ b ∷ s) bs e h =
    let (high, low, rest, ea, eb, er, shape) = join-eq-some _ _ _ bs h in
    let (first, small) = hex_digit-decode_nibble a high ea in
    let (second, small') = hex_digit-decode_nibble b low eb in
    let top : (high * 16 + low) / 16 ≡ high = omega arith in
    let bottom : (high * 16 + low) % 16 ≡ low = omega arith in
    rw (shape, top, bottom, first, second)
      (ap (λ r. to_ascii_lowercase a ∷ to_ascii_lowercase b ∷ r)
        (encode_hex-decode_pairs (n - 1) s rest (omega arith) er))

-- What `decode_hex` accepts is the encoding of its result, up to the case of the digits.
pub encode_hex-decode_hex :
    (n : ℕ) (s : Text) (bs : List ℕ)
    → decode_hex n s ≡ (bs, true)
    → encode_hex bs ≡ map to_ascii_lowercase s
unfolding decode_hex
encode_hex-decode_hex n s bs h = elim (Bool-cases (is_ascii s)) [
  | inl ascii ↦ elim (Option-cases (decode_pairs s)) [
    | inl e ↦ absurd (ground (arith, as_bytes_of_ascii s ascii))
    | inr (ds, e) ↦
        let size : length s ≡ n * 2 = ground (arith, as_bytes_of_ascii s ascii) in
        let same : ds ≡ bs = ground (arith, as_bytes_of_ascii s ascii) in
        encode_hex-decode_pairs n s bs size (e ∙ ap some same)
  ]
  | inr wide ↦ absurd (ground arith)
]
