-- ===== src/Tests/FairOrderTests.antt =====
-- The order of the messages of two tenants.
use go_chatgpt_tasks.Base.{◌≡◌, List, [], ◌∷◌, some, Text, codes, length, select}
use go_chatgpt_tasks.Task.Worker.{QueuedMessage}
use go_chatgpt_tasks.Task.FairOrder.{fair_order}
use go_chatgpt_tasks.Task.FairOrder.Rounds.{of}
use go_chatgpt_tasks.Task.FairOrder.Order.{fair_order-keeps}

abbrev message : Text → Text → QueuedMessage
message stream_id tenant = record {
  stream_id = stream_id;
  msg = record {
    job_run_id = codes "r";
    tenant_id = tenant;
    idempotency_key = codes "k";
    attempts = 0;
  };
}

abbrev three_messages : List QueuedMessage
three_messages =
    message (codes "1") (codes "a")
    ∷ message (codes "2") (codes "a")
    ∷ message (codes "3") (codes "b")
    ∷ []

fair_order-keeps_example :
    (out : List QueuedMessage) × (fair_order three_messages ≡ some out)
    × (length out ≡ length three_messages)
    × ((t : Text) → select (of t) out ≡ select (of t) three_messages)
fair_order-keeps_example = fair_order-keeps three_messages
