-- ===== src/Workloads/Integer.antt =====
-- The integer workload (src/platval/workloads/cpu.py): a sequential reference, and a pool of
-- workers that take turns in any order.
pub mod Pool
pub mod Run
-- `n.to_bytes(size, "little")`
use pc_platform_validation_t.Base.{
  if◌then◌else◌, any, nat_eq, string_eq, option_eq, concat, Result, ok, raised, ℕ, zero, suc, ◌+◌,
  ◌/◌, ◌%◌, String, ◌<>◌, List, [], ◌∷◌, ◌++◌,
}
use pc_platform_validation_t.Base.Action.{Action, ◌>>=◌, ◌>>◌, pure, lift}
use pc_platform_validation_t.Base.Floats.{Floats}
use pc_platform_validation_t.Workloads.Host.{Bytes, Digests, Host, Session, tick, take, fill_to}
use pc_platform_validation_t.Workloads.Control.{cancel, checkpoint}
use pc_platform_validation_t.Workloads.Counts.{operation_counts}
use pc_platform_validation_t.Workloads.Config.{IntegerWorkloadConfig}

abbrev pub little_endian : ℕ → ℕ → Bytes
little_endian zero n = []
little_endian (suc size) n = n % 256 ∷ little_endian size (n / 256)

module _ (d : Digests) where
  unfoldable pub worker_block : ℕ → ℕ → Bytes
  unfolding fill_to
  worker_block index size =
      fill_to size (d.sha256 (d.encode ("platval-integer-worker-" <> d.decimal index)))

  -- What an iteration gives the worker's hasher.
  abbrev pub block_digest : Bytes → ℕ → Bytes
  block_digest block iteration = d.sha256 (block ++ little_endian 8 iteration)

  unfoldable pub combine_worker_digests : List Bytes → String
  combine_worker_digests digests = d.hex (d.sha256 (concat digests))

-- What a worker is about to do, or its future's result.
pub data Worker : Type 0 where
  running : Bytes → ℕ → ℕ → Bytes → Worker
  finished : Result Bytes → Worker

-- `[future.result() for future in futures]`: the first exception in the order of the futures.
unfoldable pub results : List (Result Bytes) → Result (List Bytes)
results [] = ok []
results (ok b ∷ rs) = elim (results rs) [ ok bs ↦ ok (b ∷ bs) | raised e ↦ raised e ]
results (raised e ∷ rs) = raised e

-- `except BaseException: context.token.cancel(); raise`
abbrev pub cancel_if_raised : {A W : Type 0} → Result A → Session W → Result A × Session W
cancel_if_raised (ok a) s = (ok a, s)
cancel_if_raised (raised e) (w, t) = (raised e, (w, cancel t))

module _ (d : Digests) where
  -- The futures as they are submitted.
  unfoldable pub submit : ℕ → ℕ → List ℕ → List Worker
  unfolding worker_block
  submit block_size index [] = []
  submit block_size index (count ∷ counts) =
      running (worker_block d index block_size) 0 count [] ∷ submit block_size (index + 1) counts

module _ {F W : Type 0} ⦃o : Floats F⦄ (host : Host F W) (d : Digests) (deadline : F) where
  -- The iterations from `i` on, `n` of them, of a hasher with the bytes `acc`.
  unfoldable pub hash_loop : Bytes → ℕ → ℕ → Bytes → Action (Session W) Bytes
  hash_loop block i zero acc = pure (d.sha256 acc)
  hash_loop block i (suc n) acc =
      tick host deadline >> hash_loop block (i + 1) n (acc ++ block_digest d block i)

  unfoldable pub hash_worker : ℕ → ℕ → ℕ → Action (Session W) Bytes
  unfolding worker_block
  hash_worker index operations block_size =
      hash_loop (worker_block d index block_size) 0 operations []

  -- `[_hash_worker(index, count, ...) for index, count in enumerate(counts)]`
  unfoldable pub hash_workers : ℕ → ℕ → List ℕ → Action (Session W) (List Bytes)
  unfolding hash_worker
  hash_workers block_size index [] = pure []
  hash_workers block_size index (count ∷ counts) = do
    digest ← hash_worker index count block_size
    digests ← hash_workers block_size (index + 1) counts
    pure (digest ∷ digests)

  unfoldable pub reference_checksum : IntegerWorkloadConfig → Action (Session W) String
  unfolding hash_workers combine_worker_digests operation_counts
  reference_checksum config = do
    digests ←
        hash_workers config.block_size_bytes 0 (operation_counts config.operations config.workers)
    pure (combine_worker_digests d digests)

  -- One turn of a worker: one checkpoint and one iteration, or its end.
  unfoldable pub turn : Worker → Session W → Worker × Session W
  turn (finished r) s = (finished r, s)
  turn (running block i zero acc) s = (finished (ok (d.sha256 acc)), s)
  turn (running block i (suc n) acc) s =
      let (r, s') = tick host deadline s in
      (
        elim r [
          | ok _ ↦ running block (i + 1) n (acc ++ block_digest d block i)
          | raised e ↦ finished (raised e)
        ],
        s',
      )

  unfoldable pub turn_at : ℕ → List Worker → Session W → List Worker × Session W
  unfolding turn
  turn_at k [] s = ([], s)
  turn_at zero (w ∷ ws) s = let (w', s') = turn w s in (w' ∷ ws, s')
  turn_at (suc k) (w ∷ ws) s = let (ws', s') = turn_at k ws s in (w ∷ ws', s')

  unfoldable pub take_turns : List ℕ → List Worker → Session W → List Worker × Session W
  unfolding turn_at
  take_turns [] ws s = (ws, s)
  take_turns (k ∷ ks) ws s = let (ws', s') = turn_at k ws s in take_turns ks ws' s'

  -- The rest of a worker, after the turns of the schedule.
  unfoldable pub complete : Worker → Action (Session W) Bytes
  unfolding hash_loop
  complete (running block i n acc) = hash_loop block i n acc
  complete (finished r) = lift r

  unfoldable pub complete_all : List Worker → Session W → List (Result Bytes) × Session W
  unfolding complete
  complete_all [] s = ([], s)
  complete_all (w ∷ ws) s =
      let (r, s₁) = complete w s in let (rs, s₂) = complete_all ws s₁ in (r ∷ rs, s₂)

  unfoldable pub run_pool : List ℕ → List Worker → Action (Session W) (List Bytes)
  unfolding take_turns complete_all results
  run_pool schedule ws s =
      let (ws', s₁) = take_turns schedule ws s in
      let (rs, s₂) = complete_all ws' s₁ in cancel_if_raised (results rs) s₂
