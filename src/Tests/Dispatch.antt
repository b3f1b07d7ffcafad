-- ===== src/Tests/Dispatch.antt =====
-- Tests of handler.go.
use hookbound.Base.{◌≡◌, ◌≢◌, refl, none, some, [], ◌∷◌, Text, runes, codes, pos, arith}
use hookbound.Base.Table.{lookup, insert, delete}
use hookbound.Errors.{ok, err, coded, foreign, conflict}
use hookbound.Message.{VerifiedMessage, validate_event_type, event_rune}
use hookbound.Registry.{Handler, Registry, new_registry, register, coded_answer, dispatch_event}
use hookbound.Registry.Laws.{register-dispatch_event}

abbrev accepts : Handler (Unit {0})
accepts w m = (w, ok tt)

abbrev fails : Handler (Unit {0})
fails w m = (w, err foreign)

abbrev registry : Registry (Unit {0})
registry = record { handlers = (codes "paid", fails) ∷ []; fallback = none }

abbrev of_type : Text → VerifiedMessage
of_type event_type = record {
  id = codes "m1";
  event_type = event_type;
  source = codes "shop";
  timestamp = pos 100;
  body = codes "{}";
  content_type = [];
  headers = [];
  metadata = [];
}

registered : register new_registry (codes "paid") (some fails) ≡ ok registry
unfolding register new_registry validate_event_type event_rune runes lookup insert delete
registered = refl

differs : codes "sent" ≢ codes "paid"
differs e = ground arith

register-dispatch_event_example :
    (dispatch_event registry tt (of_type (codes "paid"))
      ≡ coded_answer (fails tt (of_type (codes "paid"))))
    × (dispatch_event registry tt (of_type (codes "sent"))
        ≡ dispatch_event new_registry tt (of_type (codes "sent")))
    × (register registry (codes "paid") (some accepts) ≡ err (coded conflict))
register-dispatch_event_example =
    register-dispatch_event new_registry registry (codes "paid") fails accepts tt
      (of_type (codes "paid")) (of_type (codes "sent")) registered refl differs
