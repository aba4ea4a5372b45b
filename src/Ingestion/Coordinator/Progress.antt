-- ===== src/Ingestion/Coordinator/Progress.antt =====
-- `execute` of coordinator.cpp ends.
use llama_rag_runtime.Base.{ℕ, zero, suc, ◌≤◌, ◌<◌, ◌≡◌, refl, Bool, true, false, none, arith}
use llama_rag_runtime.Core.Types.{Result, ok, err}
use llama_rag_runtime.Ingestion.Job.{JobId}
use llama_rag_runtime.Ingestion.Coordinator.State.{Services, Coordinator}
use llama_rag_runtime.Ingestion.Coordinator.Transition.{transition}
use llama_rag_runtime.Ingestion.Coordinator.Execute.{
  Point, enter, erase_publish, erase_call, erase_ready, chunk, read_input, preparing, embed,
  embedding_run, publish, activating, set_ready, notify, failing, failing_volatile, thrown,
  finished, after_transition, after_failure, exec_step, exec_run, is_over, entered, erase_backend,
  activate_backend, activate_current,
}

module _ {S : Services} where
  -- The pieces that are left at most.
  abbrev pieces : Point S → ℕ
  pieces enter = 10
  pieces erase_publish = 6
  pieces erase_call = 5
  pieces (erase_ready applied) = 4
  pieces chunk = 9
  pieces read_input = 8
  pieces (preparing input) = 7
  pieces (embed p) = 6
  pieces (embedding_run p) = 5
  pieces (publish p) = 4
  pieces (activating p) = 3
  pieces (set_ready p) = 2
  pieces notify = 1
  pieces (failing e) = 2
  pieces (failing_volatile e) = 1
  pieces thrown = 0
  pieces finished = 0

  pieces-after_transition :
      (next : Point S) (r : Result Bool × Coordinator S) (n : ℕ)
      → 0 < pieces next
      → pieces next ≤ n
      → pieces (after_transition next r).0 ≤ n
  pieces-after_transition next (ok true, s) n h fits = fits
  pieces-after_transition next (ok false, s) n h fits = omega arith
  pieces-after_transition next (err e, s) n h fits = omega arith

  pieces-after_failure : (r : Result Bool × Coordinator S) → pieces (after_failure r).0 ≤ 1
  pieces-after_failure (ok b, s) = omega arith
  pieces-after_failure (err e, s) = omega arith

  pieces-exec_step :
      (k : JobId) (now : ℕ) (pc : Point S) (s : Coordinator S) (n : ℕ)
      → pieces pc ≤ suc n
      → pieces (exec_step k now pc s).0 ≤ n
  unfolding exec_step entered erase_backend activate_backend activate_current
  pieces-exec_step k now enter s n h = ground arith
  pieces-exec_step k now erase_publish s n h =
      pieces-after_transition erase_call _ n (omega arith) (omega arith)
  pieces-exec_step k now erase_call s n h = ground arith
  pieces-exec_step k now (erase_ready applied) s n h =
      pieces-after_transition notify _ n (omega arith) (omega arith)
  pieces-exec_step k now chunk s n h =
      pieces-after_transition read_input _ n (omega arith) (omega arith)
  pieces-exec_step k now read_input s n h = ground arith
  pieces-exec_step k now (preparing input) s n h = ground arith
  pieces-exec_step k now (embed p) s n h =
      pieces-after_transition (embedding_run p) _ n (omega arith) (omega arith)
  pieces-exec_step k now (embedding_run p) s n h = ground arith
  pieces-exec_step k now (publish p) s n h =
      pieces-after_transition (activating p) _ n (omega arith) (omega arith)
  pieces-exec_step k now (activating p) s n h = ground arith
  pieces-exec_step k now (set_ready p) s n h =
      pieces-after_transition notify _ n (omega arith) (omega arith)
  pieces-exec_step k now notify s n h = omega arith
  pieces-exec_step k now (failing e) s n h =
      omega (arith, pieces-after_failure (transition k _ _ none none now s))
  pieces-exec_step k now (failing_volatile e) s n h = omega arith
  pieces-exec_step k now thrown s n h = omega arith
  pieces-exec_step k now finished s n h = omega arith

  over_without_pieces : (pc : Point S) → pieces pc ≤ 0 → is_over pc ≡ true
  over_without_pieces thrown h = refl
  over_without_pieces finished h = refl
  over_without_pieces _ h = absurd (omega arith)

  pub exec_run-is_over :
      (n : ℕ) (k : JobId) (clock : ℕ → ℕ) (pc : Point S) (s : Coordinator S)
      → pieces pc ≤ n
      → is_over (exec_run n k clock pc s).0 ≡ true
  unfolding exec_run
  exec_run-is_over zero k clock pc s h = over_without_pieces pc h
  exec_run-is_over (suc n) k clock pc s h =
      exec_run-is_over n k clock _ _ (pieces-exec_step k (clock n) pc s n h)

  -- An execution that no other thread interrupts ends within eleven pieces, whatever the job store, the
  -- backend, the preparation and the embedder answer and from whatever state it starts.
  pub execute_finishes :
      (id : JobId) (clock : ℕ → ℕ) (s : Coordinator S)
      → is_over (exec_run 11 id clock enter s).0 ≡ true
  execute_finishes id clock s = exec_run-is_over 11 id clock enter s (omega arith)
