-- ===== src/Message/Laws.antt =====
-- Exactly which message ids and event types are accepted.
use hookbound.Base.{
  ℕ, ◌≡◌, refl, ◌≢◌, ◌↔◌, ◌≤◌, ◌<◌, ◌⊎◌, true, false, [], ◌∷◌, Text, text_eq_iff, contains_byte,
  any, All, length, trim_space, arith, all-runes, all-runes_ascii,
}
use hookbound.Errors.{ok, err, coded, invalid_message}
use hookbound.Message.{validate_message_id, control_byte, validate_event_type, event_rune}

abbrev pub IdByte : ℕ → Type 0
IdByte c = (c ≢ b'.') × (32 ≤ c) × (c ≢ 127)

id_bytes :
    (id : Text) → (contains_byte b'.' id ≡ false) × (any control_byte id ≡ false) ↔ All IdByte id
unfolding contains_byte control_byte
id_bytes [] = (λ h. tt, λ h. (refl, refl))
id_bytes (c ∷ cs) = let ih = id_bytes cs in ground (arith, ih)

-- A message id passes exactly if it has 1 to 200 bytes, no white space round it, no dot and no
-- control byte; and every refusal has the code `invalid_message`.
pub validate_message_id_iff :
    (id : Text)
    → ((validate_message_id id ≡ ok tt)
        ↔ ((id ≢ []) × (length id ≤ 200) × (trim_space id ≡ id) × All IdByte id))
      × ((validate_message_id id ≡ ok tt) ⊎ (validate_message_id id ≡ err (coded invalid_message)))
unfolding validate_message_id
validate_message_id_iff [] = ground arith
validate_message_id_iff (c ∷ cs) =
    ground (arith, id_bytes (c ∷ cs), text_eq_iff (trim_space (c ∷ cs)) (c ∷ cs))

abbrev pub EventByte : ℕ → Type 0
EventByte c = event_rune c ≡ true

event_rune-ascii : (c : ℕ) → event_rune c ≡ true → c < 128
unfolding event_rune
event_rune-ascii c h = ground arith

-- An event type passes exactly if it has 1 to 200 bytes, each a letter, a digit, `_`, `-` or `.`,
-- although the code tests the decoded runes; and every refusal has the code `invalid_message`.
pub validate_event_type_iff :
    (t : Text)
    → ((validate_event_type t ≡ ok tt) ↔ ((t ≢ []) × (length t ≤ 200) × All EventByte t))
      × ((validate_event_type t ≡ ok tt) ⊎ (validate_event_type t ≡ err (coded invalid_message)))
unfolding validate_event_type
validate_event_type_iff [] = ground arith
validate_event_type_iff (c ∷ cs) = ground (
  arith,
  all-runes event_rune event_rune-ascii (c ∷ cs),
  all-runes_ascii event_rune event_rune-ascii (c ∷ cs),
)
