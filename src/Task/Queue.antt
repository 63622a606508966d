-- ===== src/Task/Queue.antt =====
-- internal/task/queue_redis.go: messages as entries of a Redis stream. What the server answers and
-- encoding/json are parameters.
pub mod Batch
use go_chatgpt_tasks.Base.{
  contains, Bool, true, false, ◌&&◌, ◌||◌, ◌==◌, if◌then◌else◌, List, [], ◌∷◌, ◌++◌, Option, none,
  some, Text, codes,
}
use go_chatgpt_tasks.Task.Errors.{Error, foreign, wrap}
use go_chatgpt_tasks.Task.Effect.{
  JobRunMsg, enqueue, dead_letter, ack, Result, ok, err, M, ◌>>=◌, with_context, lift_result, send,
}
use go_chatgpt_tasks.Task.Worker.{QueuedMessage}

-- msg.Values["data"]: a string, bytes, or a value of another type, nil among them.
pub data Field : Type 0 where
  string bytes : Text → Field
  other_type : Text → Field

pub record StreamEntry : Type 0 where
  pub id : Text
  pub field : Field

-- json.Marshal and json.Unmarshal of a JobRunMsg.
pub record MsgCodec : Type 0 where
  pub marshal : JobRunMsg → Result Text
  pub unmarshal : Text → Result JobRunMsg

-- fmt.Errorf("text: %w", err) on an error.
abbrev annotated : {A : Type 0} → Text → Result A → Result A
annotated t (ok a) = ok a
annotated t (err e) = err (wrap t e)

unfoldable pub decode_job_run_msg : MsgCodec → Field → Result JobRunMsg
decode_job_run_msg c (string s) = annotated (codes "unmarshal msg") (c.unmarshal s)
decode_job_run_msg c (bytes s) = annotated (codes "unmarshal msg") (c.unmarshal s)
decode_job_run_msg c (other_type t) = err (foreign (codes "unexpected data field type " ++ t))

abbrev with_id : Text → Result JobRunMsg → Result QueuedMessage
with_id id (ok m) = ok (record { stream_id = id; msg = m })
with_id id (err e) = err (wrap (codes "decode redis stream message " ++ id) e)

abbrev pub message_of : MsgCodec → StreamEntry → Result QueuedMessage
message_of c e = with_id e.id (decode_job_run_msg c e.field)

-- The loop of queuedMessagesFromMessages, which has made `out` so far.
unfoldable pub messages_from :
    MsgCodec → List QueuedMessage → List StreamEntry → Result (List QueuedMessage)
messages_from c out [] = ok out
messages_from c out (e ∷ es) = elim (message_of c e) [
  | ok m ↦ messages_from c (out ++ m ∷ []) es
  | err x ↦ err x
]

unfoldable pub queued_messages : MsgCodec → List StreamEntry → Result (List QueuedMessage)
queued_messages c es = messages_from c [] es

-- The loop of queuedMessagesFromStreams.
unfoldable pub streams_from :
    MsgCodec → List QueuedMessage → List (List StreamEntry) → Result (List QueuedMessage)
streams_from c out [] = ok out
streams_from c out (s ∷ ss) = elim (queued_messages c s) [
  | ok ms ↦ streams_from c (out ++ ms) ss
  | err x ↦ err x
]

-- How XReadGroup and XAutoClaim end; `nothing` is the error redis.Nil.
pub data RedisReply (A : Type 0) : Type 0 where
  replied : A → RedisReply A
  nothing : RedisReply A
  failed : Text → RedisReply A

unfoldable pub read : MsgCodec → RedisReply (List (List StreamEntry)) → Result (List QueuedMessage)
read c (replied ss) = streams_from c [] ss
read c nothing = ok []
read c (failed m) = err (wrap (codes "xreadgroup") (foreign m))

unfoldable pub reclaim : MsgCodec → RedisReply (List StreamEntry) → Result (List QueuedMessage)
reclaim c (replied es) = queued_messages c es
reclaim c nothing = ok []
reclaim c (failed m) = err (wrap (codes "xautoclaim") (foreign m))

-- strings.HasPrefix and strings.Contains.
-- EnsureGroup, on the error of XGroupCreateMkStream.
unfoldable pub ensure_group : Option Text → Result (Unit {0})
ensure_group none = ok tt
ensure_group (some m) =
    if contains (codes "BUSYGROUP") m then ok tt else err (wrap (codes "xgroup create") (foreign m))

-- xadd to the stream of the runs, and to that of the dead letters.
unfoldable pub enqueue_msg : MsgCodec → JobRunMsg → M (Unit {0})
enqueue_msg c m = with_context (codes "marshal msg") (lift_result (c.marshal m)) >>= λ b.
    with_context (codes "xadd") (send (enqueue m))

unfoldable pub dead_letter_msg : MsgCodec → JobRunMsg → M (Unit {0})
dead_letter_msg c m = with_context (codes "marshal msg") (lift_result (c.marshal m)) >>= λ b.
    with_context (codes "xadd") (send (dead_letter m))

unfoldable pub ack_msg : Text → M (Unit {0})
ack_msg stream_id = with_context (codes "xack") (send (ack stream_id))
