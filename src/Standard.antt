-- ===== src/Standard.antt =====
-- standard/standard.go: the Standard Webhooks signature profile. This file holds what its signers
-- and its verifier share; the children hold the keys, the signers and the verifier.
-- HMAC-SHA256, Ed25519, the JSON decoder and the source of entropy are parameters.
pub mod Keys
pub mod Signers
pub mod Verifier
pub mod ContentLaws
pub mod KeyLaws
pub mod AnyLaws
pub mod Soundness
pub mod HeaderLaws
pub mod SignLaws
pub mod RoundTrip
use hookbound.Base.{
  ℕ, ◌*◌, ◌/◌, ◌-◌, ◌+◌, Bool, true, false, not, ◌&&◌, ◌||◌, List, [], ◌∷◌, ◌++◌, Text, codes, ltb,
  length, if◌then◌else◌, is_empty, trim_space, contains_line_break, cut, fields, decode64, Option,
  none, some, ℤ, pos, negsuc, ◌+ℤ◌, ◌-ℤ◌, ltb_ℤ,
}
use hookbound.Errors.{
  Result, ok, err, coded, ◌>>=◌, ◌>>◌, reject_if, invalid_signature, invalid_configuration,
}
use hookbound.Http.{Header, values}
use hookbound.Retry.{Time, Duration, max_int64}
use hookbound.Outcome.{time_sub}

abbrev pub header_id : Text
header_id = codes "Webhook-Id"

abbrev pub header_timestamp : Text
header_timestamp = codes "Webhook-Timestamp"

abbrev pub header_signature : Text
header_signature = codes "Webhook-Signature"

-- hmacSignatureID, ed25519SignatureID
abbrev pub hmac_signature_id : Text
hmac_signature_id = codes "v1"

abbrev pub ed25519_signature_id : Text
ed25519_signature_id = codes "v1a"

-- The seconds from Go's zero time to the Unix epoch.
abbrev pub unix_epoch : ℕ
unix_epoch = 62_135_596_800

-- time.Time.Unix: whole seconds, rounded down.
unfoldable pub unix : Time → ℤ
unix (pos n) = pos (n / 1_000_000_000) -ℤ pos unix_epoch
unix (negsuc n) = negsuc (n / 1_000_000_000) -ℤ pos unix_epoch

-- A sum of int64 seconds wraps round.
wrap_int64 : ℤ → ℤ
wrap_int64 z = if ltb_ℤ (pos max_int64) z then z -ℤ pos 18_446_744_073_709_551_616 else z

in_nanoseconds : ℤ → Time
in_nanoseconds (pos n) = pos (n * 1_000_000_000)
in_nanoseconds (negsuc n) = negsuc (n * 1_000_000_000 + 999_999_999)

-- time.Unix(s, 0) of an int64.
unfoldable pub from_unix : ℤ → Time
unfolding wrap_int64 in_nanoseconds
from_unix s = in_nanoseconds (wrap_int64 (s +ℤ pos unix_epoch))

-- outsideTolerance, which the providers declare again.
unfoldable pub outside_tolerance : (received_at timestamp : Time) → (tolerance : Duration) → Bool
outside_tolerance received_at timestamp tolerance =
    if ltb_ℤ received_at timestamp
    then ltb_ℤ tolerance (time_sub timestamp received_at)
    else ltb_ℤ tolerance (time_sub received_at timestamp)

-- parsedSignature
pub record ParsedSignature : Type 0 where
  pub version : Text
  pub value : Text

-- One round of the loop of parseSignatures.
unfoldable pub parse_signature : Text → Result ParsedSignature
parse_signature field =
    let (version, encoded, found) = cut b',' field in
    (reject_if (not found || (is_empty encoded || ltb 256 (length encoded))) invalid_signature
      >> elim (decode64 false true encoded) [
        | none ↦ err (coded invalid_signature)
        | some decoded ↦ ok (record { version = version; value = decoded })
      ])

unfoldable pub parse_fields : List Text → Result (List ParsedSignature)
parse_fields [] = ok []
parse_fields (field ∷ rest) = do
  first ← parse_signature field
  others ← parse_fields rest
  ok (first ∷ others)

-- parseSignatures
unfoldable pub parse_signatures : Text → Result (List ParsedSignature)
parse_signatures value = do
  reject_if (ltb (length (fields value)) 1 || ltb 32 (length (fields value))) invalid_signature
  parse_fields (fields value)

-- singleHeader, of the header's values.
unfoldable pub single_value : List Text → Result Text
single_value (v ∷ []) = do
  reject_if (is_empty (trim_space v)) invalid_signature
  reject_if (contains_line_break (trim_space v)) invalid_signature
  ok (trim_space v)
single_value _ = err (coded invalid_signature)

unfoldable pub single_header : Header → (name : Text) → Result Text
single_header headers name = single_value (values name headers)

-- signedContent
unfoldable pub signed_content : (message_id timestamp body : Text) → Text
signed_content message_id timestamp body = message_id ++ (b'.' ∷ (timestamp ++ (b'.' ∷ body)))

key_lengths : List Text → Result (Unit {0})
key_lengths [] = ok tt
key_lengths (key ∷ keys) = do
  reject_if (ltb (length key) 24 || ltb 64 (length key)) invalid_configuration
  key_lengths keys

-- validateHMACKeys
unfoldable pub validate_hmac_keys : List Text → Result (Unit {0})
unfolding key_lengths
validate_hmac_keys keys = do
  reject_if (ltb (length keys) 1 || ltb 16 (length keys)) invalid_configuration
  key_lengths keys
