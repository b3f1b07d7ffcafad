-- ===== src/Postgres/Receipt/Inbox.antt =====
-- postgres/store.go: Handle keeps the first receipt of a message.
use hookbound.Base.{
  ◌≡◌, sym, ap, ◌∙◌, subst, true, false, none, some, List, ◌∷◌, arith, ◌⊎◌, inl, inr, Option-cases,
  text_eq_refl, text_eq_iff, Bool-cases, if◌then◌else◌, refl, All, ◌↔◌,
}
use hookbound.Errors.{
  Error, Result, ok, err, coded, conflict, persistence_failed, is_ok, Result-cases,
}
use hookbound.Postgres.Canonical.{json_headers}
use mathlib.Core.List.{Mem}
use hookbound.Postgres.Rows.{select-Mem, select-Found, select-none, All-imp}
use hookbound.Retry.{Time}
use hookbound.Message.{VerifiedMessage, validate_message}
use hookbound.Postgres.Tables.{
  ReceiptState, Db, ReceiptRow, Env, Stage, select, insert_receipt, select_rows,
}
use hookbound.Postgres.Delivery.{Store}
use hookbound.Postgres.Receipt.{
  handle, is_receipt, new_receipt, same_content, redacted_headers, json_metadata,
}

-- What the inbox does with a message that it has seen or not seen.
found :
    (store : Store) (env : Env) (m : VerifiedMessage) (db : Db) (now : Time)
    → validate_message m ≡ ok tt
    → env.now ≡ ok now
    → ((s : Stage) → env.fails s ≡ false)
    → (r : ReceiptRow) → select (is_receipt m.source m.id) db.receipts ≡ some r
    → handle store env m db ≡ (db, (if same_content m r then ok tt else err (coded conflict)))
unfolding handle
found store env m db now valid clock healthy r e =
    ground (arith, valid, clock, healthy insert_receipt, healthy select_rows, e)

fresh :
    (store : Store) (env : Env) (m : VerifiedMessage) (db : Db) (now : Time)
    → validate_message m ≡ ok tt
    → env.now ≡ ok now
    → ((s : Stage) → env.fails s ≡ false)
    → select (is_receipt m.source m.id) db.receipts ≡ none
    → handle store env m db
      ≡ (record db { receipts = new_receipt store m now ∷ db.receipts }, ok tt)
unfolding handle
fresh store env m db now valid clock healthy e =
    ground (arith, valid, clock, healthy insert_receipt, e)

select_new :
    (store : Store) (m : VerifiedMessage) (now : Time) (rs : List ReceiptRow)
    → select (is_receipt m.source m.id) (new_receipt store m now ∷ rs)
      ≡ some (new_receipt store m now)
unfolding select is_receipt
select_new store m now rs = ground (arith, text_eq_refl m.source, text_eq_refl m.id)

same_content_new :
    (store : Store) (m : VerifiedMessage) (now : Time)
    → same_content m (new_receipt store m now) ≡ true
same_content_new store m now =
    ground (arith, text_eq_refl m.event_type, text_eq_refl m.content_type, text_eq_refl m.body)

again_found :
    (store : Store) (env env' : Env) (m : VerifiedMessage) (db : Db) (r : ReceiptRow)
    → handle store env m db ≡ (db, (if same_content m r then ok tt else err (coded conflict)))
    → handle store env' m db ≡ (db, (if same_content m r then ok tt else err (coded conflict)))
    → is_ok (handle store env m db).1 ≡ true
    → handle store env' m (handle store env m db).0 ≡ ((handle store env m db).0, ok tt)
again_found store env env' m db r first second h = elim (Bool-cases (same_content m r)) [
  | inr c ↦ absurd (ground (arith, first, c, h))
  | inl c ↦
      let done = ap (λ b. (db, (if b then ok tt else err (coded conflict)))) c in
      subst (λ (t : Db × Result (Unit {0})). handle store env' m t.0 ≡ (t.0, ok tt))
        (sym (first ∙ done)) (second ∙ done)
]

-- What happens where the database answers and the clock reads `now`.
known_or_new :
    (store : Store) (env : Env) (m : VerifiedMessage) (db : Db) (now : Time)
    → validate_message m ≡ ok tt
    → env.now ≡ ok now
    → ((s : Stage) → env.fails s ≡ false)
    → ((r : ReceiptRow) × (select (is_receipt m.source m.id) db.receipts ≡ some r)
        × (handle store env m db
            ≡ (db, (if same_content m r then ok tt else err (coded conflict)))))
      ⊎ ((select (is_receipt m.source m.id) db.receipts ≡ none)
          × (handle store env m db
              ≡ (record db { receipts = new_receipt store m now ∷ db.receipts }, ok tt)))
known_or_new store env m db now valid clock healthy =
    elim (Option-cases (select (is_receipt m.source m.id) db.receipts)) [
      | inr (r, e) ↦ inl (r, e, found store env m db now valid clock healthy r e)
      | inl e ↦ inr (e, fresh store env m db now valid clock healthy e)
    ]

-- A receipt of a message's source and identifier.
abbrev pub IsOf : VerifiedMessage → ReceiptRow → Type 0
IsOf m r = (r.source ≡ m.source) × (r.message_id ≡ m.id)

-- A receipt with what a message says.
abbrev pub SaysSame : VerifiedMessage → ReceiptRow → Type 0
SaysSame m r = (r.event_type ≡ m.event_type) × (r.content_type ≡ m.content_type) × (r.body ≡ m.body)

-- The receipt of a message that arrives at `now`: pending, due at once, never attempted.
abbrev pub pending_receipt : Store → VerifiedMessage → (now : Time) → ReceiptRow
pending_receipt store m now = record {
  source = m.source;
  message_id = m.id;
  event_type = m.event_type;
  event_timestamp = m.timestamp;
  body = m.body;
  content_type = m.content_type;
  headers = json_headers (redacted_headers m.headers store.sensitive_header_names);
  metadata = json_metadata m.metadata;
  state = ReceiptState.pending;
  attempt_count = 0;
  next_attempt_at = now;
  lease_expires_at = none;
  last_error_code = none;
  received_at = now;
  processed_at = none;
  updated_at = now;
}

-- How the inbox may end with a message.
pub data HandleEnd (store : Store) (env : Env) (m : VerifiedMessage) (db : Db)
    : Db × Result (Unit {0}) → Type 0 where
  refuses : (e : Error) → validate_message m ≡ err e → HandleEnd store env m db (db, err e)
  lacks_time :
      (e : Error)
      → validate_message m ≡ ok tt
      → env.now ≡ err e
      → HandleEnd store env m db (db, err e)
  stage_fails :
      (s : Stage)
      → validate_message m ≡ ok tt
      → (s ≡ insert_receipt) ⊎ (s ≡ select_rows)
      → env.fails s ≡ true
      → HandleEnd store env m db (db, err (coded persistence_failed))
  adds :
      (now : Time)
      → validate_message m ≡ ok tt
      → env.now ≡ ok now
      → All (λ r. ¬ IsOf m r) db.receipts
      → HandleEnd store env m db
          (record db { receipts = pending_receipt store m now ∷ db.receipts }, ok tt)
  knows :
      (r : ReceiptRow)
      → validate_message m ≡ ok tt
      → Mem r db.receipts
      → IsOf m r
      → SaysSame m r
      → HandleEnd store env m db (db, ok tt)
  conflicts :
      (r : ReceiptRow)
      → validate_message m ≡ ok tt
      → Mem r db.receipts
      → IsOf m r
      → ¬ SaysSame m r
      → HandleEnd store env m db (db, err (coded conflict))

is_receipt_iff :
    (m : VerifiedMessage) (r : ReceiptRow) → (is_receipt m.source m.id r ≡ true) ↔ IsOf m r
unfolding is_receipt
is_receipt_iff m r = ground (arith, text_eq_iff r.source m.source, text_eq_iff r.message_id m.id)

same_content_iff : (m : VerifiedMessage) (r : ReceiptRow) → (same_content m r ≡ true) ↔ SaysSame m r
same_content_iff m r = ground (
  arith,
  text_eq_iff r.event_type m.event_type,
  text_eq_iff r.content_type m.content_type,
  text_eq_iff r.body m.body,
)

known_end :
    (store : Store) (env : Env) (m : VerifiedMessage) (db : Db) (now : Time)
    → validate_message m ≡ ok tt
    → env.now ≡ ok now
    → env.fails insert_receipt ≡ false
    → env.fails select_rows ≡ false
    → (r : ReceiptRow) → select (is_receipt m.source m.id) db.receipts ≡ some r
    → HandleEnd store env m db (handle store env m db)
unfolding handle
known_end store env m db now good clock f g r e =
    let there = select-Mem (is_receipt m.source m.id) db.receipts r e in
    let is_of = (is_receipt_iff m r).0 (select-Found (is_receipt m.source m.id) db.receipts r e) in
    elim (Bool-cases (same_content m r)) [
      | inl c ↦
          let eq : handle store env m db ≡ (db, ok tt) = ground (arith, good, clock, f, g, e, c) in
          subst (HandleEnd store env m db) (sym eq)
            (knows r good there is_of ((same_content_iff m r).0 c))
      | inr c ↦
          let eq : handle store env m db ≡ (db, err (coded conflict)) =
            ground (arith, good, clock, f, g, e, c) in
          subst (HandleEnd store env m db) (sym eq) (
            conflicts r good there is_of
              (λ same. absurd (ground (arith, c, (same_content_iff m r).1 same))))
    ]

found_or_not :
    (store : Store) (env : Env) (m : VerifiedMessage) (db : Db) (now : Time)
    → validate_message m ≡ ok tt
    → env.now ≡ ok now
    → env.fails insert_receipt ≡ false
    → HandleEnd store env m db (handle store env m db)
unfolding handle
found_or_not store env m db now good clock f =
    elim (Option-cases (select (is_receipt m.source m.id) db.receipts)) [
      | inl e ↦
          let eq : handle store env m db
              ≡ (record db { receipts = pending_receipt store m now ∷ db.receipts }, ok tt) =
            ground (arith, good, clock, f, e) in
          subst (HandleEnd store env m db) (sym eq) (
            adds now good clock (
              All-imp _ _
                (λ r differs is. absurd (ground (arith, differs, (is_receipt_iff m r).1 is)))
                db.receipts (select-none (is_receipt m.source m.id) db.receipts e)))
      | inr (r, e) ↦ elim (Bool-cases (env.fails select_rows)) [
        | inl g ↦
            let eq : handle store env m db ≡ (db, err (coded persistence_failed)) =
              ground (arith, good, clock, f, g, e) in
            subst (HandleEnd store env m db) (sym eq) (stage_fails select_rows good (inr refl) g)
        | inr g ↦ known_end store env m db now good clock f g r e
      ]
    ]

-- A message that the inbox does not take leaves the database as it was: one that is not valid, one for
-- which the clock, the insertion or the look at the stored receipt fails, and one that contradicts a receipt of its source
-- and identifier by another event type, content type or body, which is a conflict. A valid message
-- whose receipt is in the table with the same event type, content type and body succeeds and changes
-- nothing; and one that the table has no receipt of succeeds and adds its pending receipt, due at once
-- and never attempted. There is no other end.
pub handle_branches :
    (store : Store) (env : Env) (m : VerifiedMessage) (db : Db)
    → HandleEnd store env m db (handle store env m db)
unfolding handle
handle_branches store env m db = elim (Result-cases (validate_message m)) [
  | inr (e, bad) ↦ subst (HandleEnd store env m db) (sym (rw (bad, handle) refl)) (refuses e bad)
  | inl (u, good) ↦ elim (Result-cases env.now) [
    | inr (e, stopped) ↦
        subst (HandleEnd store env m db) (sym (rw (good, handle) (rw stopped refl)))
          (lacks_time e good stopped)
    | inl (now, clock) ↦ elim (Bool-cases (env.fails insert_receipt)) [
      | inl f ↦
          subst (HandleEnd store env m db) (sym (rw (good, handle) (rw clock (rw f refl))))
            (stage_fails insert_receipt good (inl refl) f)
      | inr f ↦ found_or_not store env m db now good clock f
    ]
  ]
]

-- Where a valid message was taken into the inbox with success, a later delivery of the same message
-- to the database that this left succeeds too and changes nothing. In both runs the database answers,
-- and the clocks read `now` and `later`.
pub handle_idempotent :
    (store : Store) (env env' : Env) (m : VerifiedMessage) (db : Db) (now later : Time)
    → validate_message m ≡ ok tt
    → env.now ≡ ok now
    → env'.now ≡ ok later
    → ((s : Stage) → env.fails s ≡ false)
    → ((s : Stage) → env'.fails s ≡ false)
    → is_ok (handle store env m db).1 ≡ true
    → handle store env' m (handle store env m db).0 ≡ ((handle store env m db).0, ok tt)
handle_idempotent store env env' m db now later valid clock clock' healthy healthy' h =
    elim (known_or_new store env m db now valid clock healthy) [
      | inl (r, e, first) ↦
          again_found store env env' m db r first
            (found store env' m db later valid clock' healthy' r e) h
      | inr (e, first) ↦
          let left = record db { receipts = new_receipt store m now ∷ db.receipts } in
          let second =
            found store env' m left later valid clock' healthy' (new_receipt store m now)
              (select_new store m now db.receipts) in
          subst (λ (t : Db × Result (Unit {0})). handle store env' m t.0 ≡ (t.0, ok tt)) (sym first)
            (second
              ∙ ap (λ b. (left, (if b then ok tt else err (coded conflict))))
                  (same_content_new store m now))
    ]
