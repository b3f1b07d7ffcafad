-- ===== src/Tests/Guards.antt =====
-- Tests of replay.go and receiver.go.
use hookbound.Base.{
  ℕ, ◌≡◌, ◌≢◌, refl, ◌⊎◌, false, none, some, [], ◌∷◌, Text, codes, text_eq, length, trim_space, pos,
  ◌+ℤ◌, ◌<ℤ◌, ◌≤ℤ◌, arith, valid_utf8, runes, decode_rune, contains_byte, is_space,
}
use hookbound.Base.Table.{lookup, insert, delete, keep}
use hookbound.Errors.{ok}
use hookbound.Http.{get, stored}
use hookbound.Retry.{Time}
use hookbound.Message.{
  VerifiedMessage, validate_message, validate_message_id, validate_event_type, event_rune,
}
use hookbound.Replay.{claim_round, commit, sweep, reserve, new_memory_replay_guard, replay_key}
use hookbound.Replay.Laws.{IsValid, replay_key_injective}
use hookbound.Replay.System.{
  ready, holding, acknowledged, accepted, waiting, System, claim_step, commit_step, release_step,
  claims, commits, Reach, here, next,
}
use hookbound.Replay.System.Invariant.{IsClosed}
use hookbound.Replay.System.Safety.{
  start, one_holder, reached-IsValid, acknowledged_accepted, waiting_progress,
}
use hookbound.Replay.System.Expiry.{committed_excludes}
use hookbound.Receiver.{
  returns, Reply, Receiver, ReceiverConfig, new_receiver, default_error_responder, Request,
  serve_http,
}
use hookbound.Receiver.Laws.{serve_http-IsVerified, IsVerified, IsWhole}
use hookbound.Receiver.Success.{acknowledged-IsAccepted, IsAccepted}
use hookbound.Receiver.Memory.{World, memory_guard, redelivery_ignored}

-- Three requests for one key: the first has committed, the second was told so, and the last waited.
abbrev key : ℕ → Text
key t = codes "k"

abbrev s₀ : System
s₀ = start (pos 4) (pos 100)

abbrev s₁ : System
s₁ = claim_step key s₀ 0

abbrev s₂ : System
s₂ = claim_step key s₁ 1

abbrev s₃ : System
s₃ = commit_step key s₂ 0 (pos 500)

abbrev s₄ : System
s₄ = claim_step key s₃ 2

ready₀ : s₀.phase 0 ≡ ready
unfolding start
ready₀ = refl

ready₁ : s₁.phase 1 ≡ ready
unfolding start claim_step claim_round
ready₁ = refl

holds : s₂.phase 0 ≡ holding
unfolding start claim_step claim_round reserve sweep lookup new_memory_replay_guard text_eq insert
    delete
holds = refl

waits : s₂.phase 1 ≡ waiting (some 0)
unfolding start claim_step claim_round reserve sweep lookup new_memory_replay_guard text_eq insert
    delete
waits = refl

ready₂ : s₃.phase 2 ≡ ready
unfolding start claim_step claim_round commit_step commit
ready₂ = refl

told : s₄.phase 2 ≡ acknowledged
unfolding start claim_step claim_round reserve sweep lookup new_memory_replay_guard text_eq insert
    delete commit_step commit
told = refl

reach₂ : Reach key s₀ s₂
reach₂ = next (next here (claims 0 ready₀)) (claims 1 ready₁)

reach₄ : Reach key s₀ s₄
reach₄ = next (next reach₂ (commits 0 (pos 500) holds)) (claims 2 ready₂)

one_holder_example : ◌≡◌ {A = ℕ} 0 0
one_holder_example = one_holder key (pos 4) (pos 100) s₂ reach₂ 0 0 holds holds refl

reached-IsValid_example : IsValid s₄.guard
reached-IsValid_example = reached-IsValid key (pos 4) (pos 100) s₄ reach₄

acknowledged_accepted_example : (u : ℕ) × (s₄.phase u ≡ accepted) × (key u ≡ key 2)
acknowledged_accepted_example = acknowledged_accepted key (pos 4) (pos 100) s₄ reach₄ 2 told

waiting_progress_example :
    (c : ℕ) × (some 0 ≡ some c)
    × (IsClosed s₂.guard c
        ⊎ ((u : ℕ) × (s₂.phase u ≡ holding)
            × (key u ≡ key 1)
            × ((x : Time) → IsClosed (commit_step key s₂ u x).guard c)
            × IsClosed (release_step key s₂ u).guard c))
waiting_progress_example = waiting_progress key (pos 4) (pos 100) s₂ reach₂ 1 (some 0) waits

early : s₄.now <ℤ pos 500
unfolding start claim_step commit_step
early = omega arith

committed_excludes_example : s₄.phase 2 ≢ holding
committed_excludes_example =
    committed_excludes key (pos 4) (pos 100) s₂ s₄ 0 2 (pos 500) reach₂ holds
      (next here (claims 2 ready₂)) early refl

valid_id : validate_message_id (codes "m1") ≡ ok tt
unfolding validate_message_id trim_space text_eq contains_byte runes decode_rune is_space valid_utf8
valid_id = refl

replay_key_injective_example : (codes "a" ≡ codes "a") × (codes "m1" ≡ codes "m1")
replay_key_injective_example =
    replay_key_injective (codes "a") (codes "a") (codes "m1") (codes "m1") valid_id valid_id refl

-- A receiver that takes any signature, over the in-process guard, and a request.
abbrev W : Type 0
W = World (Unit {0})

abbrev config : ReceiverConfig W
config = record {
  verifier = some (λ w i. (
    w,
    ok (record {
      id = codes "m1";
      event_type = codes "paid";
      source = codes "shop";
      timestamp = pos 100;
      metadata = [];
    }),
  ));
  handler = some (λ w m. (w, returns (ok tt)));
  replay_guard = some memory_guard;
  clock = λ w. w.now;
  max_body_bytes = pos 0;
  replay_ttl = pos 1000;
  success_status = 0;
  error_responder = none;
}

abbrev receiver : Receiver W
receiver = record {
  verifier = λ w i. (
    w,
    ok (record {
      id = codes "m1";
      event_type = codes "paid";
      source = codes "shop";
      timestamp = pos 100;
      metadata = [];
    }),
  );
  handler = λ w m. (w, returns (ok tt));
  replay_guard = some memory_guard;
  clock = λ w. w.now;
  max_body = pos 1048576;
  replay_ttl = pos 1000;
  success_status = 204;
  respond_error = default_error_responder;
}

built : new_receiver config ≡ ok receiver
unfolding new_receiver
built = refl

abbrev before : W
before = record { guard = new_memory_replay_guard (pos 8); now = pos 100; app = tt }

abbrev request : Request
request = record {
  method = codes "POST";
  header = [];
  content_length = pos 2;
  body = some (record { bytes = codes "{}"; fails = false });
}

abbrev message : VerifiedMessage
message = record {
  id = codes "m1";
  event_type = codes "paid";
  source = codes "shop";
  timestamp = pos 100;
  body = codes "{}";
  content_type = [];
  headers = [];
  metadata = [];
}

abbrev no_content : Reply
no_content = record { status = 204; headers = []; body = [] }

handled_once : (serve_http receiver before request).handled ≡ message ∷ []
unfolding serve_http text_eq trim_space get stored ◌+ℤ◌ validate_message validate_message_id
    contains_byte validate_event_type event_rune memory_guard claim_round lookup
    new_memory_replay_guard reserve sweep commit delete insert keep replay_key
handled_once = refl

replied : (serve_http receiver before request).reply ≡ some no_content
unfolding serve_http text_eq trim_space get stored ◌+ℤ◌ validate_message validate_message_id
    contains_byte validate_event_type event_rune memory_guard claim_round lookup
    new_memory_replay_guard reserve sweep commit delete insert keep replay_key
replied = refl

serve_http-IsVerified_example :
    ((serve_http receiver before request).handled ≡ [])
    ⊎ ((m : VerifiedMessage) × ((serve_http receiver before request).handled ≡ m ∷ [])
        × IsVerified receiver before request m
        × (pos (length m.body) ≤ℤ pos 1048576)
        × IsWhole (pos 1048576) request m.body)
serve_http-IsVerified_example = serve_http-IsVerified config receiver before request built

acknowledged-IsAccepted_example :
    IsAccepted receiver before request (serve_http receiver before request)
acknowledged-IsAccepted_example =
    acknowledged-IsAccepted config receiver before request no_content built refl replied
      (omega arith)

abbrev after : W
after = record (serve_http receiver before request).world { now = pos 600 }

in_time : after.now <ℤ (serve_http receiver before request).world.now +ℤ receiver.replay_ttl
unfolding serve_http text_eq trim_space get stored ◌+ℤ◌ validate_message validate_message_id
    contains_byte validate_event_type event_rune memory_guard claim_round lookup
    new_memory_replay_guard reserve sweep commit delete insert keep replay_key
in_time = omega arith

redelivery_ignored_example : (serve_http receiver after request).handled ≢ message ∷ []
redelivery_ignored_example =
    redelivery_ignored config receiver before after request request message message no_content built
      refl refl refl (λ x i. refl) handled_once replied (omega arith) refl in_time refl refl
