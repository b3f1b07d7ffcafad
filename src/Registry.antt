-- ===== src/Registry.antt =====
-- handler.go: the registry of handlers by event type. Its lock makes each operation one step.
pub mod Laws
use hookbound.Base.{Option, none, some, List, [], ◌∷◌, Text}
use hookbound.Base.Table.{lookup, insert}
use hookbound.Errors.{
  invalid_configuration, unknown_event, handler_failed, conflict, Result, ok, err, Error, coded,
  foreign, ◌>>◌,
}
use hookbound.Message.{VerifiedMessage, validate_event_type}

-- Handler, over a state; a nil Handler is `none` where one may be nil.
abbrev pub Handler : Type 0 → Type 0
Handler W = W → VerifiedMessage → W × Result (Unit {0})

-- Registry
pub record Registry (W : Type 0) : Type 0 where
  pub handlers : List (Text × Handler W)
  pub fallback : Option (Handler W)

-- NewRegistry
unfoldable pub new_registry : {W : Type 0} → Registry W
new_registry = record { handlers = []; fallback = none }

module _ {W : Type 0} where
  -- Registry.Register
  unfoldable pub register : Registry W → Text → Option (Handler W) → Result (Registry W)
  register r event_type none = validate_event_type event_type >> err (coded invalid_configuration)
  register r event_type (some h) =
      validate_event_type event_type >> (elim (lookup event_type r.handlers) [
        | some other ↦ err (coded conflict)
        | none ↦ ok (record r { handlers = insert event_type h r.handlers })
      ])

  -- Registry.RegisterAny
  unfoldable pub register_any : Registry W → Option (Handler W) → Result (Registry W)
  register_any r none = err (coded invalid_configuration)
  register_any r (some h) = elim r.fallback [
    | some other ↦ err (coded conflict)
    | none ↦ ok (record r { fallback = some h })
  ]

  -- What Handle makes of a handler's answer: an error without a code gets one.
  abbrev pub coded_answer : W × Result (Unit {0}) → W × Result (Unit {0})
  coded_answer (w, ok u) = (w, ok u)
  coded_answer (w, err (coded c)) = (w, err (coded c))
  coded_answer (w, err foreign) = (w, err (coded handler_failed))

  -- The handler of an event type: its own, or else the catch-all.
  unfoldable pub handler_of : Registry W → Text → Option (Handler W)
  handler_of r event_type = elim (lookup event_type r.handlers) [
    | none ↦ r.fallback
    | some h ↦ some h
  ]

  -- Registry.Handle
  unfoldable pub dispatch_event : Registry W → W → VerifiedMessage → W × Result (Unit {0})
  unfolding handler_of
  dispatch_event r w m = elim (handler_of r m.event_type) [
    | none ↦ (w, err (coded unknown_event))
    | some h ↦ coded_answer (h w m)
  ]
