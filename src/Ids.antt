-- ===== src/Ids.antt =====
-- id.go: RandomIDGenerator; and randomOpaqueID of postgres/store.go. The entropy is an argument.
use hookbound.Base.{
  ℕ, ◌≡◌, refl, [], ◌∷◌, ◌++◌, Text, codes, map, lower, length, All, arith, encode32,
  encode32-IsCapitalOrDigit, length-encode32, IsCapitalOrDigit, IsWordByte, trim_space-word,
  All-append,
}
use hookbound.Errors.{Result, ok, ◌>>=◌, recode, internal}
use hookbound.Message.{validate_message_id}
use hookbound.Message.Laws.{validate_message_id_iff, IdByte}

-- RandomIDGenerator.NewMessageID; the parameter is what io.ReadFull makes of the reader for so many
-- bytes. errors.Join keeps the code that its error may have.
unfoldable pub new_message_id : (read_full : ℕ → Result Text) → Result Text
new_message_id read_full = do
  entropy ← read_full 16
  ok (codes "msg_" ++ map lower (encode32 entropy))

-- randomOpaqueID
unfoldable pub random_opaque_id : (read : ℕ → Result Text) → (prefix : Text) → Result Text
random_opaque_id read prefix = do
  value ← recode internal (read 16)
  ok (prefix ++ map lower (encode32 value))

lower-All :
    (s : Text)
    → All IsCapitalOrDigit s
    → All IsWordByte (map lower s) × All IdByte (map lower s) × (length (map lower s) ≡ length s)
unfolding lower
lower-All [] h = (tt, tt, refl)
lower-All (c ∷ s) (first, h) = ground (arith, lower-All s)

-- A generated identifier is one that ValidateMessageID accepts.
pub new_message_id-IsValid :
    (entropy : Text)
    → length entropy ≡ 16
    → (new_message_id (λ n. ok entropy) >>= validate_message_id) ≡ ok tt
unfolding new_message_id
new_message_id-IsValid entropy h =
    let (word, id_bytes, size) = lower-All (encode32 entropy) (encode32-IsCapitalOrDigit entropy) in
    (validate_message_id_iff (codes "msg_" ++ map lower (encode32 entropy))).0.1 (
      (λ e. absurd (ground (arith, e))),
      omega (arith, size, length-encode32 entropy, h),
      trim_space-word (codes "msg_" ++ map lower (encode32 entropy))
          (All-append IsWordByte (codes "msg_") (map lower (encode32 entropy)) (ground arith) word),
      All-append IdByte (codes "msg_") (map lower (encode32 entropy)) (ground arith) id_bytes,
    )
