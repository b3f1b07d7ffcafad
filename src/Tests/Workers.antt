-- ===== src/Tests/Workers.antt =====
-- Tests of postgres/runtime.go and postgres/schema.go, and of the encodings.
use hookbound.Base.{
  true, false, encode32, encode64, decode64, decode_hex, fields, ◌≡◌, refl, false, none, some, [],
  ◌∷◌, codes, pos, ◌-ℤ◌,
}
use hookbound.Errors.{ok}
use hookbound.Retry.{seconds, standard_retry_policy}
use hookbound.Postgres.Runtime.{
  Runtime, RuntimeConfig, Round, Send, Handler, returned, panicked, work_outbound_once, new_runtime,
  or_positive, renewal_interval, renewal_timeout_of, worker_count, some_store, is_nil, is_zero,
  min_duration,
}
use hookbound.Postgres.Runtime.Laws.{OutboundEnd, work_outbound_once-End}
use hookbound.Postgres.Runtime.Periods.{new_runtime-IsTimely, IsTimely}
use hookbound.Postgres.Schema.{qualified_relation}
use hookbound.Postgres.Schema.Quoting.{qualified_relation-roundtrip, read_relation}
use hookbound.Tests.Store.{at, store, queue}

abbrev panics : Send
panics request = panicked

abbrev accepts : Handler
accepts message = returned none

abbrev settings : RuntimeConfig
settings = record {
  store = some store;
  sender = some panics;
  inbound_handler = some accepts;
  retry_policy = standard_retry_policy;
  lease_duration = pos 0;
  lease_renewal_interval = pos 0;
  lease_renewal_timeout = pos 0;
  poll_interval = pos 0;
  completion_timeout = pos 0;
  outbound_workers = pos 0;
  inbound_workers = pos 1;
}

abbrev runtime : Runtime
runtime = record {
  store = store;
  sender = some panics;
  inbound = some accepts;
  retry = standard_retry_policy;
  lease = seconds 60;
  renewal = seconds 20;
  renewal_timeout = seconds 5;
  poll = pos 250_000_000;
  completion = seconds 10;
  outbound_count = pos 4;
  inbound_count = pos 1;
}

made : new_runtime settings ≡ ok runtime
unfolding new_runtime or_positive renewal_interval renewal_timeout_of worker_count some_store is_nil
    is_zero min_duration ◌-ℤ◌ standard_retry_policy
made = refl

new_runtime-IsTimely_example : IsTimely runtime
new_runtime-IsTimely_example = new_runtime-IsTimely settings runtime made

-- The worker claims the delivery at 10, renews its lease at 15, and completes it at 20.
abbrev round : Round
round = record {
  claim_env = at (pos 10);
  new_id = ok (codes "a1");
  beats = record { others = λ db. db; env = at (pos 15); ended = false } ∷ [];
  others = λ db. db;
  complete_env = at (pos 20);
  random = none;
}

work_outbound_once-End_example :
    OutboundEnd runtime round queue (work_outbound_once runtime round queue)
work_outbound_once-End_example = work_outbound_once-End runtime round queue

qualified_relation-roundtrip_example :
    read_relation (qualified_relation (codes "a\"b") (codes "hookbound_messages"))
    ≡ some (codes "a\"b", codes "hookbound_messages")
qualified_relation-roundtrip_example =
    qualified_relation-roundtrip (codes "a\"b") (codes "hookbound_messages")

-- RFC 4648.
base32_foobar : encode32 (codes "foobar") ≡ codes "MZXW6YTBOI"
unfolding encode32
base32_foobar = refl

base64_foob : encode64 true (codes "foob") ≡ codes "Zm9vYg=="
unfolding encode64
base64_foob = refl

base64_back : decode64 false true (codes "Zm9v\nYg==") ≡ some (codes "foob")
unfolding decode64
base64_back = refl

hex_back : decode_hex (codes "6D7e") ≡ some (codes "m~")
unfolding decode_hex
hex_back = refl

three_fields : fields (codes " a  bc\td ") ≡ codes "a" ∷ codes "bc" ∷ codes "d" ∷ []
unfolding fields
three_fields = refl
