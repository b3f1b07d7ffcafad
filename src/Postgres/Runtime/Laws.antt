-- ===== src/Postgres/Runtime/Laws.antt =====
-- postgres/runtime.go: how a step of an outbound worker ends, and what a lost lease means.
use hookbound.Base.{
  ◌≡◌, refl, sym, ap, ◌∙◌, subst, true, false, Option, none, some, List, [], ◌∷◌, ◌⊎◌, inl, inr,
  Bool-cases, pos,
}
use hookbound.Errors.{
  Error, Result, ok, err, coded, invalid_configuration, persistence_failed, internal,
}
use hookbound.Message.{SendRequest}
use hookbound.Outcome.{AttemptResult}
use hookbound.Sender.{started}
use hookbound.Postgres.Tables.{Db, Env, run_tx}
use hookbound.Postgres.Delivery.{
  ClaimedDelivery, claim_delivery, claim_delivery_in_tx, renew_delivery_lease,
  renew_delivery_lease_in_tx,
}
use hookbound.Postgres.Delivery.Completion.{complete_delivery, complete_delivery_in_tx}
use hookbound.Postgres.Delivery.Steps.{claim_delivery_idle}
use hookbound.Postgres.Runtime.{
  Runtime, Round, Beat, Call, returned, panicked, Send, Worked, send_safely, heartbeat, after_beat,
  error_of, finish_outbound, work_claimed, work_sender, work_outbound_once, request_of,
}

-- A call of the store: its environment, and the database before.
abbrev Renewal : Type 0
Renewal = Env → Db → Db × Result (Unit {0})

-- The renewals of a heartbeat that keeps its lease from one database to another: all are granted, or
-- all until the work had ended.
pub data Held (renew : Renewal) : List Beat → Db → Db → Type 0 where
  rests : {db : Db} → Held renew [] db db
  renews :
      {beat : Beat} {beats : List Beat} {db db₁ db₂ : Db}
      → renew beat.env (beat.others db) ≡ (db₁, ok tt)
      → Held renew beats db₁ db₂
      → Held renew (beat ∷ beats) db db₂
  stops :
      {beat : Beat} {beats : List Beat} {db : Db} (e : Error)
      → beat.ended ≡ true
      → (renew beat.env (beat.others db)).1 ≡ err e
      → Held renew (beat ∷ beats) db (beat.others db)

-- The renewals of a heartbeat that loses its lease: one is refused before the work has ended, and the
-- database is as the other processes had left it just before.
pub data Lost (renew : Renewal) : List Beat → Db → Db → Type 0 where
  now :
      {beat : Beat} {beats : List Beat} {db : Db} (e : Error)
      → beat.ended ≡ false
      → (renew beat.env (beat.others db)).1 ≡ err e
      → Lost renew (beat ∷ beats) db (beat.others db)
  later :
      {beat : Beat} {beats : List Beat} {db db₁ db₂ : Db}
      → renew beat.env (beat.others db) ≡ (db₁, ok tt)
      → Lost renew beats db₁ db₂
      → Lost renew (beat ∷ beats) db db₂

-- A heartbeat keeps its lease and reports nothing, or loses it and says so.
abbrev Beats : Renewal → List Beat → Db → Db × Option Error → Type 0
Beats renew beats db (db', error) =
    (Held renew beats db db' × (error ≡ none))
    ⊎ (Lost renew beats db db' × (error ≡ some (coded persistence_failed)))

module _ (renew : Renewal)
    (unchanged : (env : Env) (db : Db) (e : Error)
      → (renew env db).1 ≡ err e
      → (renew env db).0 ≡ db) where
  granted :
      (beat : Beat) (beats : List Beat) (db db₁ : Db) (answer : Db × Option Error)
      → renew beat.env (beat.others db) ≡ (db₁, ok tt)
      → Beats renew beats db₁ answer
      → Beats renew (beat ∷ beats) db answer
  granted beat beats db db₁ (db₂, error) did (inl (held, e)) = inl (renews did held, e)
  granted beat beats db db₁ (db₂, error) did (inr (lost, e)) = inr (later did lost, e)

  after_beat-Beats :
      (beat : Beat) (beats : List Beat) (db : Db) (answer : Db × Result (Unit {0}))
      → renew beat.env (beat.others db) ≡ answer
      → ((db₁ : Db) → Beats renew beats db₁ (heartbeat renew beats db₁))
      → Beats renew (beat ∷ beats) db (after_beat beat.ended (heartbeat renew beats) answer)
  unfolding after_beat
  after_beat-Beats beat beats db (db₁, ok u) same rest =
      granted beat beats db db₁ (heartbeat renew beats db₁) same (rest db₁)
  after_beat-Beats beat beats db (db₁, err e) same rest =
      let refused = ap (λ (x : Db × Result (Unit {0})). x.1) same in
      let left : beat.others db ≡ db₁ =
        sym (unchanged beat.env (beat.others db) e refused)
        ∙ ap (λ (x : Db × Result (Unit {0})). x.0) same in
      elim (Bool-cases beat.ended) [
        | inl ended ↦
            inl (subst (Held renew (beat ∷ beats) db) left (stops e ended refused), rw ended refl)
        | inr working ↦
            inr (subst (Lost renew (beat ∷ beats) db) left (now e working refused), rw working refl)
      ]

  heartbeat-Beats : (beats : List Beat) (db : Db) → Beats renew beats db (heartbeat renew beats db)
  unfolding heartbeat
  heartbeat-Beats [] db = inl (rests, refl)
  heartbeat-Beats (beat ∷ beats) db =
      after_beat-Beats beat beats db (renew beat.env (beat.others db)) refl (heartbeat-Beats beats)

-- A call of the store that fails leaves the database as it was.
run_tx-failed {ℓ} :
    {A : Type ℓ} (db : Db) (code : Result (A × Db)) (e : Error)
    → (run_tx db code).1 ≡ err e
    → (run_tx db code).0 ≡ db
run_tx-failed db (ok (a, db')) e h = cc
run_tx-failed db (err x) e h = refl

-- The result and the error of a send: those that the sender returns, or, where it panics, internal
-- errors.
abbrev pub Reports : Call (AttemptResult × Option Error) → AttemptResult × Option Error → Type 0
Reports (returned answer) reported = reported ≡ answer
Reports panicked (result, error) =
    (result.error_code ≡ some internal) × (error ≡ some (coded internal))

send_safely-Reports :
    (send : Send) (request : SendRequest) → Reports (send request) (send_safely send request)
unfolding send_safely
send_safely-Reports send request = by_call (send request)
  where
    by_call :
        (call : Call (AttemptResult × Option Error))
        → Reports call (elim call [
          | returned answer ↦ answer
          | panicked ↦
              (record (started [] (pos 0)) { error_code = some internal }, some (coded internal))
        ])
    by_call (returned answer) = refl
    by_call panicked = (refl, refl)

-- What a worker asks the sender to send for a claim.
abbrev pub asked : ClaimedDelivery → SendRequest
asked c = record {
  id = c.message_id;
  url = c.destination;
  event_type = c.event_type;
  body = c.body;
  content_type = c.content_type;
  headers = c.headers;
  auth = none;
}

-- How a step of an outbound worker may end: the database, whether there was work, and the error.
pub data OutboundEnd (rt : Runtime) (round : Round) (db : Db) : Worked → Type 0 where
  lacks_sender :
      rt.sender ≡ none → OutboundEnd rt round db (db, false, some (coded invalid_configuration))
  lacks_claim :
      (e : Error)
      → (claim_delivery round.claim_env round.new_id rt.lease db).1 ≡ err e
      → OutboundEnd rt round db (db, false, some e)
  lacks_work :
      (claim_delivery round.claim_env round.new_id rt.lease db).1 ≡ ok none
      → OutboundEnd rt round db (db, false, none)
  loses :
      (c : ClaimedDelivery) (db₁ db₂ : Db)
      → claim_delivery round.claim_env round.new_id rt.lease db ≡ (db₁, ok (some c))
      → Lost (λ env. renew_delivery_lease rt.store env c rt.lease) round.beats db₁ db₂
      → OutboundEnd rt round db (db₂, true, some (coded persistence_failed))
  completes :
      (send : Send) (c : ClaimedDelivery) (db₁ db₂ db₃ : Db) (result : AttemptResult)
      (error : Option Error)
      → rt.sender ≡ some send
      → claim_delivery round.claim_env round.new_id rt.lease db ≡ (db₁, ok (some c))
      → Held (λ env. renew_delivery_lease rt.store env c rt.lease) round.beats db₁ db₂
      → Reports (send (asked c)) (result, error)
      → complete_delivery rt.store round.complete_env round.random c result error rt.retry
          (round.others db₂)
        ≡ (db₃, ok tt)
      → OutboundEnd rt round db (db₃, true, none)
  fails_to_complete :
      (send : Send) (c : ClaimedDelivery) (db₁ db₂ : Db) (result : AttemptResult)
      (error : Option Error) (e : Error)
      → rt.sender ≡ some send
      → claim_delivery round.claim_env round.new_id rt.lease db ≡ (db₁, ok (some c))
      → Held (λ env. renew_delivery_lease rt.store env c rt.lease) round.beats db₁ db₂
      → Reports (send (asked c)) (result, error)
      → (complete_delivery rt.store round.complete_env round.random c result error rt.retry
          (round.others db₂)).1
        ≡ err e
      → OutboundEnd rt round db (round.others db₂, true, some e)

renewal_unchanged :
    (rt : Runtime) (c : ClaimedDelivery) (env : Env) (db : Db) (e : Error)
    → (renew_delivery_lease rt.store env c rt.lease db).1 ≡ err e
    → (renew_delivery_lease rt.store env c rt.lease db).0 ≡ db
unfolding renew_delivery_lease
renewal_unchanged rt c env db e h =
    run_tx-failed db (renew_delivery_lease_in_tx rt.store env c rt.lease db) e h

module _ (rt : Runtime) (round : Round) (db : Db) (send : Send)
    (there : rt.sender ≡ some send) where
  error_of-End :
      (c : ClaimedDelivery) (db₁ db₂ : Db) (result : AttemptResult) (error : Option Error)
      (answer : Db × Result (Unit {0}))
      → claim_delivery round.claim_env round.new_id rt.lease db ≡ (db₁, ok (some c))
      → Held (λ env. renew_delivery_lease rt.store env c rt.lease) round.beats db₁ db₂
      → Reports (send (asked c)) (result, error)
      → complete_delivery rt.store round.complete_env round.random c result error rt.retry
          (round.others db₂)
        ≡ answer
      → OutboundEnd rt round db (error_of answer)
  unfolding error_of complete_delivery
  error_of-End c db₁ db₂ result error (db₃, ok u) claimed held reports same =
      completes send c db₁ db₂ db₃ result error there claimed held reports same
  error_of-End c db₁ db₂ result error (db₃, err e) claimed held reports same =
      let refused = ap (λ (x : Db × Result (Unit {0})). x.1) same in
      let left : round.others db₂ ≡ db₃ =
        sym (
          run_tx-failed (round.others db₂)
            (complete_delivery_in_tx rt.store round.complete_env round.random c result error
              rt.retry (round.others db₂))
            e refused)
        ∙ ap (λ (x : Db × Result (Unit {0})). x.0) same in
      subst (λ d. OutboundEnd rt round db (d, true, some e)) left
        (fails_to_complete send c db₁ db₂ result error e there claimed held reports refused)

  finish_outbound-End :
      (c : ClaimedDelivery) (db₁ : Db) (reported : AttemptResult × Option Error)
      (beaten : Db × Option Error)
      → claim_delivery round.claim_env round.new_id rt.lease db ≡ (db₁, ok (some c))
      → Reports (send (asked c)) reported
      → Beats (λ env. renew_delivery_lease rt.store env c rt.lease) round.beats db₁ beaten
      → OutboundEnd rt round db (finish_outbound rt round c reported beaten)
  unfolding finish_outbound
  finish_outbound-End c db₁ (result, error) (db₂, none) claimed reports (inl (held, e)) =
      error_of-End c db₁ db₂ result error _ claimed held reports refl
  finish_outbound-End c db₁ reported (db₂, some x) claimed reports (inl (held, e)) = absurd cc
  finish_outbound-End c db₁ reported (db₂, none) claimed reports (inr (lost, e)) = absurd cc
  finish_outbound-End c db₁ reported (db₂, some x) claimed reports (inr (lost, e)) =
      subst (λ y. OutboundEnd rt round db (db₂, true, y)) (sym e) (loses c db₁ db₂ claimed lost)

  work_claimed-End :
      (answer : Db × Result (Option ClaimedDelivery))
      → claim_delivery round.claim_env round.new_id rt.lease db ≡ answer
      → OutboundEnd rt round db (work_claimed rt send round answer)
  unfolding work_claimed claim_delivery
  work_claimed-End (db₁, err e) same =
      let refused = ap (λ (x : Db × Result (Option ClaimedDelivery)). x.1) same in
      subst (λ d. OutboundEnd rt round db (d, false, some e))
        (sym (
            run_tx-failed db (claim_delivery_in_tx round.claim_env round.new_id rt.lease db) e
              refused)
          ∙ ap (λ (x : Db × Result (Option ClaimedDelivery)). x.0) same)
        (lacks_claim e refused)
  work_claimed-End (db₁, ok none) same =
      subst (λ d. OutboundEnd rt round db (d, false, none))
        (sym (claim_delivery_idle round.claim_env round.new_id rt.lease db db₁ same))
        (lacks_work (ap (λ (x : Db × Result (Option ClaimedDelivery)). x.1) same))
  work_claimed-End (db₁, ok (some c)) same =
      finish_outbound-End c db₁ (send_safely send (request_of c))
        (heartbeat (λ env. renew_delivery_lease rt.store env c rt.lease) round.beats db₁) same
        (send_safely-Reports send (request_of c))
        (heartbeat-Beats (λ env. renew_delivery_lease rt.store env c rt.lease)
          (renewal_unchanged rt c) round.beats db₁)

work_sender-End :
    (rt : Runtime) (round : Round) (db : Db) (sender : Option Send)
    → rt.sender ≡ sender
    → OutboundEnd rt round db (work_sender rt sender round db)
unfolding work_sender
work_sender-End rt round db none there = lacks_sender there
work_sender-End rt round db (some send) there =
    work_claimed-End rt round db send there
      (claim_delivery round.claim_env round.new_id rt.lease db) refl

-- A step of an outbound worker ends in one of six ways. Without a sender, without a claim, or with
-- nothing due, it changes nothing. Once a delivery is claimed and a renewal of the lease is refused
-- before the work has ended, it reports a persistence error and writes nothing more, whatever the
-- sender answered: the database is as the other processes had left it before that renewal. With a lease
-- that is kept, it completes the claim with what the sender reported of the claim's own message, or,
-- where the sender panicked, with an internal error; and where the completion fails, the step reports
-- that failure and the completion has changed nothing.
pub work_outbound_once-End :
    (rt : Runtime) (round : Round) (db : Db)
    → OutboundEnd rt round db (work_outbound_once rt round db)
unfolding work_outbound_once
work_outbound_once-End rt round db = work_sender-End rt round db rt.sender refl
