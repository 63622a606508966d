-- ===== src/Task/System.antt =====
-- The program as a whole: what its processes (cmd/, internal/bootstrap) do one after the other, on
-- one database.
pub mod Cancels
pub mod Preserved
pub mod Finished
pub mod Invariant
use go_chatgpt_tasks.Base.{Bool, Option, Text}
use go_chatgpt_tasks.Task.Effect.{World}
use go_chatgpt_tasks.Task.Recurrence.Location.{Zone}
use go_chatgpt_tasks.Task.Worker.{Worker, QueuedMessage, process}
use go_chatgpt_tasks.Task.Watcher.{scan_once}
use go_chatgpt_tasks.Task.RecurringWatcher.{scan_recurring}
use go_chatgpt_tasks.Task.Http.{Handler, Request, Endpoint, serve}
use go_chatgpt_tasks.Task.Service.{Identity}
use go_chatgpt_tasks.Users.Service.{UserService}
use go_chatgpt_tasks.Users.Http.{UserRequest, serve_user}
use go_chatgpt_tasks.Mcp.{Codec, Tool, call_tool}

-- How the processes are configured: the worker, the handlers of tasks and of users, time.LoadLocation,
-- and the codec and the identity of the MCP server.
pub record Config : Type 0 where
  pub worker : Worker
  pub handler : Handler
  pub users : UserService
  pub load_location : Text → Option Zone
  pub codec : Codec
  pub ident : Identity

module _ (g : Config) where
  -- A message for a worker, a tick of either watcher, a request of either kind, or a tool's call.
  pub data Step : World → World → Type 0 where
    message :
        (qm : QueuedMessage) (reclaimed : Bool) (w : World)
        → Step w (process g.worker qm reclaimed w).1
    tick : (w : World) → Step w (scan_once w).1
    recurring_tick : (w : World) → Step w (scan_recurring g.load_location w).1
    request : (e : Endpoint) (q : Request) (w : World) → Step w (serve g.handler e q w).1
    user_request : (q : UserRequest) (w : World) → Step w (serve_user g.users q w).1
    tool_call :
        (tool : Tool) (raw : Text) (w : World)
        → Step w (call_tool g.codec g.load_location g.handler.svc g.ident tool raw w).1

  pub data Steps : World → World → Type 0 where
    rest : (w : World) → Steps w w
    then_step : (u v w : World) → Steps u v → Step v w → Steps u w
