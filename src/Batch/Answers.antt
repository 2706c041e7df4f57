-- ===== src/Batch/Answers.antt =====
-- `send_batch` of src/batch.rs returns one result for each request, in the order of the requests.
use blasthttp.Common.{ℕ, suc, ◌≡◌, ◌⊎◌, List, [], ◌∷◌}
use blasthttp.Common.Bytes.{Bytes}
use blasthttp.Common.Result.{Result}
use blasthttp.Batch.Engine.{BatchResult, Batch, panic_result, answer}
use blasthttp.Batch.Sound.{Sound}
use blasthttp.Client.Error.{ClientError}
use blasthttp.Client.Redirect.{Response}
use blasthttp.Config.Request.{RequestConfig}

module _ (client : ℕ → RequestConfig → Result ClientError Response) where
  -- The n-th result is the client's answer to the n-th request under its URL, or reports a panic.
  abbrev pub Each : ℕ → List RequestConfig → List BatchResult → Type 0
  Each n [] [] = Unit
  Each n (config ∷ configs) (r ∷ results) =
      ((r ≡ answer client n config) ⊎ ((text : Bytes) × (r ≡ panic_result text)))
      × Each (suc n) configs results
  Each n _ _ = ⊥
