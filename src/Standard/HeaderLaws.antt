-- ===== src/Standard/HeaderLaws.antt =====
-- What the signers put into the headers, singleHeader and parseSignatures read back.
use hookbound.Base.{
  ℕ, suc, ◌≡◌, ◌≢◌, refl, ap, ◌≤◌, true, false, ◌||◌, List, [], ◌∷◌, map, Text, IsBytes, text_eq,
  All, join, fields-join, IsWord, IsWordByte, length, ltb, cut, trim_space, trim_space-word,
  contains_line_break, encode64, decode64-encode64, encode64-IsWord, encode64-cons, length-encode64,
  format_int, format_int-ne, format_int_bytes, IsDecimalByte, ℤ, arith,
}
use hookbound.Errors.{ok}
use hookbound.Http.{values, stored, canonical_key}
use hookbound.Message.{validate_message_id}
use hookbound.Message.Laws.{validate_message_id_iff, IdByte}
use hookbound.Standard.{
  header_id, header_timestamp, header_signature, hmac_signature_id, ParsedSignature,
  parse_signature, parse_fields, parse_signatures, single_value,
}
use hookbound.Standard.Signers.{signed_headers, tagged}

-- The three headers are read back as they are written.
pub values-signed_headers :
    (id timestamp : Text) (signatures : List Text)
    → (values header_id (signed_headers id timestamp signatures) ≡ id ∷ [])
      × (values header_timestamp (signed_headers id timestamp signatures) ≡ timestamp ∷ [])
      × (values header_signature (signed_headers id timestamp signatures) ≡ join signatures ∷ [])
unfolding values stored canonical_key text_eq signed_headers
values-signed_headers id timestamp signatures = (refl, refl, refl)

-- Text without a control character holds no line break.
no_line_break : (s : Text) → All (λ c. 32 ≤ c) s → contains_line_break s ≡ false
unfolding contains_line_break
no_line_break [] h = refl
no_line_break (c ∷ s) (first, h) = ground (arith, no_line_break s h)

single_value-plain :
    (s : Text) → s ≢ [] → trim_space s ≡ s → All (λ c. 32 ≤ c) s → single_value (s ∷ []) ≡ ok s
unfolding single_value
single_value-plain [] some_byte trimmed plain = absurd (some_byte refl)
single_value-plain (c ∷ s) some_byte trimmed plain = rw (trimmed, no_line_break (c ∷ s) plain)

All-map : (P Q : ℕ → Type 0) → ((c : ℕ) → P c → Q c) → (s : Text) → All P s → All Q s
All-map P Q f [] h = tt
All-map P Q f (c ∷ s) (first, h) = (f c first, All-map P Q f s h)

pub single_value-id : (id : Text) → validate_message_id id ≡ ok tt → single_value (id ∷ []) ≡ ok id
single_value-id id valid =
    let (some_byte, _, trimmed, plain) = (validate_message_id_iff id).0.0 valid in
    single_value-plain id some_byte trimmed (All-map IdByte (λ c. 32 ≤ c) (λ c h. h.1) id plain)

pub single_value-int : (z : ℤ) → single_value (format_int z ∷ []) ≡ ok (format_int z)
single_value-int z =
    let plain =
      All-map IsDecimalByte IsWordByte (λ c h. omega (arith, h.0, h.1)) (format_int z)
        (format_int_bytes z) in
    single_value-plain (format_int z) (format_int-ne z) (trim_space-word (format_int z) plain)
      (All-map IsWordByte (λ c. 32 ≤ c) (λ c h. omega (arith, h.0)) (format_int z) plain)

tagged-IsWord : (mac : Text) → IsBytes mac → IsWord (tagged hmac_signature_id mac)
unfolding tagged
tagged-IsWord mac h = (
  (λ e. absurd (ground (arith, e))),
  (ground arith, (ground arith, (ground arith, encode64-IsWord true mac))),
)

short : (s : Text) → length s ≤ 256 → ltb 256 (length s) ≡ false
short s h = ground arith

in_bounds : (n : ℕ) → 1 ≤ n → n ≤ 32 → (ltb n 1 || ltb 32 n) ≡ false
in_bounds n low high = ground arith

join_one : (s : Text) → join (s ∷ []) ≡ s
unfolding join
join_one s = refl

parse_signature-tagged :
    (mac : Text)
    → IsBytes mac
    → length mac ≡ 32
    → parse_signature (tagged hmac_signature_id mac)
      ≡ ok (record { version = hmac_signature_id; value = mac })
unfolding parse_signature tagged cut
parse_signature-tagged [] h size = absurd (omega (arith, size))
parse_signature-tagged (c ∷ mac) h size = rw (
  parse_signature,
  encode64-cons true c mac,
  short (encode64 true (c ∷ mac)) (omega (arith, length-encode64 true (c ∷ mac), size)),
  decode64-encode64 true (c ∷ mac) h,
)

unfoldable pub tags : List Text → List Text
tags macs = map (tagged hmac_signature_id) macs

unfoldable pub as_v1 : Text → ParsedSignature
as_v1 mac = record { version = hmac_signature_id; value = mac }

unfoldable pub found : List Text → List ParsedSignature
found macs = map as_v1 macs

parse_fields-tags :
    (macs : List Text)
    → All (λ mac. IsBytes mac × (length mac ≡ 32)) macs
    → (parse_fields (tags macs) ≡ ok (found macs)) × All IsWord (tags macs)
unfolding parse_fields tags found as_v1
parse_fields-tags [] h = (refl, tt)
parse_fields-tags (mac ∷ macs) ((bytes, size), h) =
    let (rest, words) = parse_fields-tags macs h in
    (rw (parse_signature-tagged mac bytes size, rest), (tagged-IsWord mac bytes, words))

length-tags : (macs : List Text) → length (tags macs) ≡ length macs
unfolding tags
length-tags [] = refl
length-tags (mac ∷ macs) = ap suc (length-tags macs)

pub parse_signatures-tags :
    (macs : List Text)
    → 1 ≤ length macs
    → length macs ≤ 32
    → All (λ mac. IsBytes mac × (length mac ≡ 32)) macs
    → parse_signatures (join (join (tags macs) ∷ [])) ≡ ok (found macs)
unfolding parse_signatures
parse_signatures-tags macs some_mac few h =
    let (parsed, words) = parse_fields-tags macs h in
    rw (
      parse_signatures,
      join_one (join (tags macs)),
      fields-join (tags macs) words,
      length-tags macs,
      in_bounds (length macs) some_mac few,
      parsed,
    )
