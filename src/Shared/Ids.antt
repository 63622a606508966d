-- ===== src/Shared/Ids.antt =====
-- internal/shared/ids.go: the identifier types, which are all uuid.UUID. The library google/uuid is a
-- parameter; what it parses and prints is in the environment.
use go_chatgpt_tasks.Base.{◌++◌, Option, none, some, Text, codes}
use go_chatgpt_tasks.Task.Errors.{sentinel, wrap, invalid_id}
use go_chatgpt_tasks.Task.Domain.{Uuid}
use go_chatgpt_tasks.Task.Effect.{Result, ok, err, M}

pub data IdType : Type 0 where
  user_id tenant_id job_id job_run_id run_event_id : IdType

abbrev type_name : IdType → Text
type_name user_id = codes "UserID"
type_name tenant_id = codes "TenantID"
type_name job_id = codes "JobID"
type_name job_run_id = codes "JobRunID"
type_name run_event_id = codes "RunEventID"

-- ParseUserID and the like: the library's error is replaced.
abbrev pub parsed_id : Option Uuid → Result Uuid
parsed_id none = err (sentinel invalid_id)
parsed_id (some u) = ok u

unfoldable pub parse_id : Text → M Uuid
parse_id s w = (parsed_id (w.env.uuid_parse s), w)

-- The driver's values, and how uuid.UUID reads and writes them: Value, UUID.Scan and ParseBytes.
pub record UuidCodec (V : Type 0) : Type 0 where
  pub value : Uuid → V
  pub scan : V → Result Uuid
  pub parse_bytes : Text → Result Uuid

-- A method on *UserID and the like assigns the identifier only if it succeeds: it returns the error
-- with the identifier as it is then.
abbrev assigned : Uuid → Result Uuid → Result (Unit {0}) × Uuid
assigned old (ok u) = (ok tt, u)
assigned old (err e) = (err e, old)

abbrev scan_error : IdType → Result Uuid → Result Uuid
scan_error k (ok u) = ok u
scan_error k (err e) = err (wrap (codes "scan " ++ type_name k) e)

module _ {V : Type 0} (c : UuidCodec V) where
  unfoldable pub unmarshal_text : Text → Uuid → Result (Unit {0}) × Uuid
  unmarshal_text b old = assigned old (c.parse_bytes b)

  unfoldable pub scan_id : IdType → V → Uuid → Result (Unit {0}) × Uuid
  scan_id k src old = assigned old (scan_error k (c.scan src))
