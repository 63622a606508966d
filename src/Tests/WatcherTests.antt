-- ===== src/Tests/WatcherTests.antt =====
-- The watcher, and the order of messages, on concrete inputs.
use go_chatgpt_tasks.Base.{◌+◌, ◌*◌, arith}
use mathlib.Core.List.{Memᴰ}
use go_chatgpt_tasks.Clock.{minute}
use go_chatgpt_tasks.Task.Transitions.{bucket_of}
use go_chatgpt_tasks.Task.Watcher.{buckets_in_range}
use go_chatgpt_tasks.Task.Watcher.Buckets.{buckets_in_range-mem}
use go_chatgpt_tasks.Tests.Sample.{noon}

buckets_in_range-mem_example :
    Memᴰ
      (bucket_of (noon + 62 * minute))
      (buckets_in_range (noon + 58 * minute) (noon + 63 * minute))
buckets_in_range-mem_example =
    buckets_in_range-mem (noon + 58 * minute) (noon + 63 * minute) (noon + 62 * minute)
      (omega arith) (omega arith)
