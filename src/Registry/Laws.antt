-- ===== src/Registry/Laws.antt =====
-- handler.go: a registration takes effect for its event type, once, and for no other.
use hookbound.Base.{
  ◌≡◌, ◌≢◌, refl, none, some, Text, arith, sym, ap, ◌∙◌, false, Bool-cases, text_eq, text_eq_refl,
  text_eq_iff, Option-cases, inl, inr,
}
use hookbound.Base.Table.{lookup, insert, lookup-insert}
use hookbound.Errors.{conflict, ok, err, coded, Result-cases}
use hookbound.Message.{VerifiedMessage, validate_event_type}
use hookbound.Registry.{Handler, Registry, register, coded_answer, dispatch_event}

ok_eq : {W : Type 0} {r r' : Registry W} → ok r ≡ ok r' → r ≡ r'
ok_eq h = cc

registered :
    {W : Type 0} (r r' : Registry W) (event_type : Text) (h : Handler W)
    → register r event_type (some h) ≡ ok r'
    → (validate_event_type event_type ≡ ok tt)
      × (lookup event_type r.handlers ≡ none)
      × (r' ≡ record r { handlers = insert event_type h r.handlers })
unfolding register
registered r r' event_type h done = elim (Result-cases (validate_event_type event_type)) [
  | inr (e, invalid) ↦ absurd (ground (arith, done, invalid))
  | inl (_, valid) ↦ elim (Option-cases (lookup event_type r.handlers)) [
    | inr (old, there) ↦ absurd (ground (arith, done, valid, there))
    | inl free ↦ (valid, free, sym (ok_eq (sym (rw (valid, free) refl) ∙ done)))
  ]
]

apart : (s t : Text) → t ≢ s → text_eq s t ≡ false
apart s t h = elim (Bool-cases (text_eq s t)) [
  | inl e ↦ absurd (h (sym ((text_eq_iff s t).0 e)))
  | inr e ↦ e
]

dispatch_event-found :
    {W : Type 0} (r : Registry W) (w : W) (m : VerifiedMessage) (h : Handler W)
    → lookup m.event_type r.handlers ≡ some h
    → dispatch_event r w m ≡ coded_answer (h w m)
unfolding dispatch_event
dispatch_event-found r w m h e = rw (e, dispatch_event) refl

dispatch_event-same :
    {W : Type 0} (r r' : Registry W) (w : W) (m : VerifiedMessage)
    → lookup m.event_type r'.handlers ≡ lookup m.event_type r.handlers
    → r'.fallback ≡ r.fallback
    → dispatch_event r' w m ≡ dispatch_event r w m
unfolding dispatch_event
dispatch_event-same r r' w m e f = elim (Option-cases (lookup m.event_type r.handlers)) [
  | inr (h, there) ↦
      dispatch_event-found r' w m h (e ∙ there) ∙ sym (dispatch_event-found r w m h there)
  | inl none_there ↦ ground (arith, e, f, none_there)
]

-- After a handler has been registered for an event type, a message of that type goes to it and to no
-- other handler, the answer getting a code if its error has none; a message of another type goes
-- where it went before; and another registration for the type is refused with a conflict.
pub register-dispatch_event :
    {W : Type 0} (r r' : Registry W) (event_type : Text) (h h' : Handler W) (w : W)
    (m other : VerifiedMessage)
    → register r event_type (some h) ≡ ok r'
    → m.event_type ≡ event_type
    → other.event_type ≢ event_type
    → (dispatch_event r' w m ≡ coded_answer (h w m))
      × (dispatch_event r' w other ≡ dispatch_event r w other)
      × (register r' event_type (some h') ≡ err (coded conflict))
unfolding register
register-dispatch_event r r' event_type h h' w m other done same differs =
    let (valid, free, e) = registered r r' event_type h done in
    let left : r'.fallback ≡ r.fallback = rw e refl in
    let mine : lookup event_type r'.handlers ≡ some h =
      rw (e, lookup-insert event_type event_type h r.handlers, text_eq_refl event_type) refl in
    let theirs : lookup other.event_type r'.handlers ≡ lookup other.event_type r.handlers =
      rw
        (
          e,
          lookup-insert event_type other.event_type h r.handlers,
          apart event_type other.event_type differs,
        )
        refl in
    (
      dispatch_event-found r' w m h (ap (λ t. lookup t r'.handlers) same ∙ mine),
      dispatch_event-same r r' w other theirs left,
      rw (valid, mine) refl,
    )
