-- ===== src/Batch/Engine.antt =====
-- `send_batch` and `send_batch_stream` of src/batch.rs, as steps of the tasks they spawn. A step that a
-- task cannot take leaves the batch as it is. What the client answers to the n-th request is a
-- parameter, and so is the text of a panic. The rate limiter delays dispatch only.
use blasthttp.Common.{
  ℕ, ◌+◌, ◌-◌, if◌then◌else◌, leb, Option, none, some, List, [], ◌∷◌, ◌++◌, get_elem?, set,
}
use blasthttp.Common.Bytes.{Bytes, codes}
use blasthttp.Common.Maybe.{◌>>=◌}
use blasthttp.Common.Result.{Result, err}
use blasthttp.Client.Error.{ClientError, error_of, other}
use blasthttp.Client.Redirect.{Response}
use blasthttp.Config.Request.{RequestConfig}

pub record BatchResult : Type 0 where
  pub url : Bytes
  pub result : Result ClientError Response

-- A task: before it has a permit, with its request under way, and when it has ended.
pub data Task : Type 0 where
  queued running : RequestConfig → Task
  finished : RequestConfig → BatchResult → Task
  panicked : RequestConfig → Bytes → Task

-- `waiting` is not dispatched yet; `tasks` are in the order of dispatch; `sent` is what has gone into
-- the channel of a stream.
pub record Batch : Type 0 where
  pub waiting : List RequestConfig
  pub tasks : List Task
  pub permits : ℕ
  pub sent : List BatchResult

abbrev pub batch_of : ℕ → List RequestConfig → Batch
batch_of concurrency configs = record {
  waiting = configs;
  tasks = [];
  permits = concurrency;
  sent = [];
}

pub data Event : Type 0 where
  dispatch : Event
  start finish : (task : ℕ) → Event
  panic : (task : ℕ) (text : Bytes) → Event

-- A task without a permit takes one.
abbrev pub start_step : ℕ → Option Task → Batch → Batch
start_step i (some (queued config)) b =
    if leb 1 b.permits
    then record {
      waiting = b.waiting;
      tasks = set b.tasks i (running config);
      permits = b.permits - 1;
      sent = b.sent;
    }
    else b
start_step i _ b = b

-- The permit is given back however a task ends.
abbrev pub end_as : ℕ → Task → List BatchResult → Batch → Batch
end_as i task results b = record {
  waiting = b.waiting;
  tasks = set b.tasks i task;
  permits = b.permits + 1;
  sent = b.sent ++ results;
}

abbrev pub panic_step : ℕ → Bytes → Option Task → Batch → Batch
panic_step i text (some (running config)) b = end_as i (panicked config text) [] b
panic_step i text _ b = b

abbrev pub spawn : Task → List RequestConfig → ℕ → Batch → Batch
spawn task rest permits b = record {
  waiting = rest;
  tasks = b.tasks ++ (task ∷ []);
  permits = permits;
  sent = b.sent;
}

-- `send_batch` spawns a task before it has a permit.
abbrev pub dispatch_queued : List RequestConfig → Batch → Batch
dispatch_queued [] b = b
dispatch_queued (config ∷ rest) b = spawn (queued config) rest b.permits b

-- The driver of `send_batch_stream` takes the permit first.
abbrev pub dispatch_running : List RequestConfig → Batch → Batch
dispatch_running [] b = b
dispatch_running (config ∷ rest) b =
    if leb 1 b.permits then spawn (running config) rest (b.permits - 1) b else b

abbrev pub panic_result : Bytes → BatchResult
panic_result text = record {
  url = codes "<unknown>";
  result = err (error_of other (codes "task panicked: " ++ text));
}

-- The handles awaited in order, when every task has ended.
unfoldable pub awaited : List Task → Option (List BatchResult)
awaited [] = some []
awaited (finished config result ∷ tasks) = awaited tasks >>= λ results. some (result ∷ results)
awaited (panicked config text ∷ tasks) =
    awaited tasks >>= λ results. some (panic_result text ∷ results)
awaited (_ ∷ tasks) = none

abbrev pub collected : List RequestConfig → List Task → Option (List BatchResult)
collected [] tasks = awaited tasks
collected (config ∷ rest) tasks = none

module _ (client : ℕ → RequestConfig → Result ClientError Response) where
  abbrev pub answer : ℕ → RequestConfig → BatchResult
  answer n config = record { url = config.url; result = client n config }

  abbrev pub finish_step : ℕ → Option Task → Batch → Batch
  finish_step i (some (running config)) b =
      end_as i (finished config (answer i config)) (answer i config ∷ []) b
  finish_step i _ b = b

  unfoldable pub step : Event → Batch → Batch
  step dispatch b = dispatch_queued b.waiting b
  step (start i) b = start_step i (get_elem? b.tasks i) b
  step (finish i) b = finish_step i (get_elem? b.tasks i) b
  step (panic i text) b = panic_step i text (get_elem? b.tasks i) b

  abbrev pub run : List Event → Batch → Batch
  run [] b = b
  run (e ∷ events) b = run events (step e b)

  -- What `send_batch` returns, if it does.
  abbrev pub send_batch : ℕ → List RequestConfig → List Event → Option (List BatchResult)
  send_batch concurrency configs events =
      let b = run events (batch_of concurrency configs) in collected b.waiting b.tasks

  unfoldable pub stream_step : Event → Batch → Batch
  stream_step dispatch b = dispatch_running b.waiting b
  stream_step (start i) b = b
  stream_step (finish i) b = finish_step i (get_elem? b.tasks i) b
  stream_step (panic i text) b = panic_step i text (get_elem? b.tasks i) b

  abbrev pub send_batch_stream : List Event → Batch → Batch
  send_batch_stream [] b = b
  send_batch_stream (e ∷ events) b = send_batch_stream events (stream_step e b)
