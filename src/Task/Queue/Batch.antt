-- ===== src/Task/Queue/Batch.antt =====
-- internal/task/queue_redis.go: which batches are read.
use go_chatgpt_tasks.Base.{
  ◌≡◌, ◌↔◌, ◌⊎◌, refl, ap, sym, subst, ◌∙◌, inl, inr, List, [], ◌∷◌, ◌++◌, append_assoc, append-nil,
}
use go_chatgpt_tasks.Task.Errors.{Error}
use go_chatgpt_tasks.Task.Effect.{Result, ok, err}
use go_chatgpt_tasks.Task.Worker.{QueuedMessage}
use go_chatgpt_tasks.Task.Queue.{
  StreamEntry, MsgCodec, decode_job_run_msg, message_of, messages_from, queued_messages,
}

-- The messages are those of the entries, one by one.
abbrev pub Decodes : MsgCodec → List StreamEntry → List QueuedMessage → Type 0
Decodes c [] [] = Unit
Decodes c (e ∷ es) (m ∷ ms) =
    (m.stream_id ≡ e.id) × (decode_job_run_msg c e.field ≡ ok m.msg) × Decodes c es ms
Decodes c _ _ = ⊥

message_of-ok :
    (c : MsgCodec) (e : StreamEntry) (m : QueuedMessage)
    → m.stream_id ≡ e.id
    → decode_job_run_msg c e.field ≡ ok m.msg
    → message_of c e ≡ ok m
message_of-ok c e m i d = rw (d, ← i) refl

messages_from-Decodes :
    (c : MsgCodec) (out : List QueuedMessage) (es : List StreamEntry) (ms : List QueuedMessage)
    → Decodes c es ms
    → messages_from c out es ≡ ok (out ++ ms)
unfolding messages_from
messages_from-Decodes c out [] [] h = ap ok (sym (append-nil out))
messages_from-Decodes c out [] (m ∷ ms) h = elim h [ ]
messages_from-Decodes c out (e ∷ es) [] h = elim h [ ]
messages_from-Decodes c out (e ∷ es) (m ∷ ms) h =
    rw (message_of-ok c e m h.0 h.1, messages_from)
      (messages_from-Decodes c (out ++ m ∷ []) es ms h.2 ∙ ap ok (append_assoc out (m ∷ []) ms))

Result-cases : {A : Type 0} (x : Result A) → ((a : A) × (x ≡ ok a)) ⊎ ((e : Error) × (x ≡ err e))
Result-cases (ok a) = inl (a, refl)
Result-cases (err e) = inr (e, refl)

ok_injective : {A : Type 0} {a b : A} → ok a ≡ ok b → a ≡ b
ok_injective h = cc

err-ne-ok : {A : Type 0} {e : Error} {a : A} → err e ≡ ok a → ⊥
err-ne-ok {A} h = absurd (subst failed h tt)
  where
    failed : Result A → Type 0
    failed (ok a) = ⊥
    failed (err e) = Unit

messages_from_sound :
    (c : MsgCodec) (out : List QueuedMessage) (es : List StreamEntry) (r : List QueuedMessage)
    → messages_from c out es ≡ ok r
    → (ms : List QueuedMessage) × (r ≡ out ++ ms) × Decodes c es ms
unfolding messages_from
messages_from_sound c out [] r h = ([], sym (ok_injective h) ∙ sym (append-nil out), tt)
messages_from_sound c out (e ∷ es) r h = elim (Result-cases (decode_job_run_msg c e.field)) [
  | inl (m, d) ↦
      let qm : QueuedMessage = record { stream_id = e.id; msg = m } in
      let h' : messages_from c (out ++ qm ∷ []) es ≡ ok r = rw (d, messages_from) at h in
      let (ms, same, rest) = messages_from_sound c (out ++ qm ∷ []) es r h' in
      (qm ∷ ms, same ∙ append_assoc out (qm ∷ []) ms, (refl, d, rest))
  | inr (x, d) ↦ absurd (err-ne-ok (rw (d, messages_from) at h))
]

-- A batch is read as a whole or not at all: its messages are returned exactly if every entry can be
-- decoded, and are then those of the entries, in their order.
pub queued_messages-ok_iff :
    (c : MsgCodec) (es : List StreamEntry) (ms : List QueuedMessage)
    → (queued_messages c es ≡ ok ms) ↔ Decodes c es ms
unfolding queued_messages
queued_messages-ok_iff c es ms = (
  λ h. let (ms', same, d) = messages_from_sound c [] es ms h in subst (Decodes c es) (sym same) d,
  λ d. messages_from-Decodes c [] es ms d,
)
