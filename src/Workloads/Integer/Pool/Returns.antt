-- ===== src/Workloads/Integer/Pool/Returns.antt =====
-- The pool of the integer workload returns when nothing stops it
-- (src/platval/workloads/cpu.py, control.py).
use pc_platform_validation_t.Base.{
  nat_eq, string_eq, option_eq, Result, ok, ℕ, zero, suc, ◌≡◌, refl, false, ◌+◌, ◌++◌, all, All,
  raised, ap, ◌∙◌, List, [], ◌∷◌,
}
use pc_platform_validation_t.Base.Floats.{Floats, float_le}
use pc_platform_validation_t.Workloads.Control.{cancelled, checkpoint, CancellationToken}
use pc_platform_validation_t.Workloads.Host.{Bytes, Digests, Host, see_parent, Session, tick}
use pc_platform_validation_t.Workloads.Integer.{
  hash_loop, block_digest, Worker, running, finished, results, cancel_if_raised, submit, turn,
  turn_at, take_turns, complete, complete_all, run_pool,
}
use pc_platform_validation_t.Base.Action.{>>=-after}
use pc_platform_validation_t.Workloads.Integer.Pool.{worker_digests, run_pool-eq}

module _ {A W : Type 0} where
  -- The call returns, and the token is as it was.
  abbrev pub Returns : CancellationToken → Result A × Session W → Type 0
  Returns t p = (a : A) × (w : W) × (p ≡ (ok a, (w, t)))

module _ {F W : Type 0} ⦃o : Floats F⦄ where
  -- The parent is never cancelled, and the clock never reaches the deadline.
  abbrev pub IsQuiet : Host F W → F → Type 0
  IsQuiet host deadline =
      (w : W)
      → ((host.parent_cancelled w).0 ≡ false) × (float_le deadline (host.monotonic w).0 ≡ false)

  module _ (host : Host F W) (deadline : F) (quiet : IsQuiet host deadline) where
    pub tick-eq :
        (w : W) (t : CancellationToken)
        → cancelled t ≡ false
        → tick host deadline (w, t) ≡ (ok tt, ((host.monotonic (host.parent_cancelled w).1).1, t))
    unfolding tick see_parent checkpoint
    tick-eq w t live =
        let (stopped, w₁) = host.parent_cancelled w in rw ((quiet w).0, live, (quiet w₁).1)

    hash_loop-Returns :
        (d : Digests) (block : Bytes) (i n : ℕ) (acc : Bytes) (w : W) (t : CancellationToken)
        → cancelled t ≡ false
        → Returns t (hash_loop host d deadline block i n acc (w, t))
    unfolding hash_loop
    hash_loop-Returns d block i zero acc w t live = (_, w, refl)
    hash_loop-Returns d block i (suc n) acc w t live =
        let w' = (host.monotonic (host.parent_cancelled w).1).1 in
        let next = acc ++ block_digest d block i in
        let go = hash_loop host d deadline block (i + 1) n next in
        let (b, w₂, e) = hash_loop-Returns d block (i + 1) n next w' t live in
        (b, w₂, >>=-after (tick host deadline) (λ _. go) (w, t) (tick-eq w t live) ∙ e)

    module _ (d : Digests) where
      -- A worker that has not raised.
      abbrev IsFine : Worker → Type 0
      IsFine (running block i n acc) = Unit
      IsFine (finished (ok b)) = Unit
      IsFine (finished (raised e)) = ⊥

      turn-IsFine :
          (wk : Worker) (w : W) (t : CancellationToken)
          → cancelled t ≡ false
          → IsFine wk
          → (wk' : Worker) × (w' : W) × IsFine wk'
            × (turn host d deadline wk (w, t) ≡ (wk', (w', t)))
      unfolding turn
      turn-IsFine (finished r) w t live fine = (finished r, w, fine, refl)
      turn-IsFine (running block i zero acc) w t live fine = (_, w, tt, refl)
      turn-IsFine (running block i (suc n) acc) w t live fine = (
        _,
        _,
        tt,
        ap
            (λ p. (
              elim p.0 [
                | ok _ ↦ running block (i + 1) n (acc ++ block_digest d block i)
                | raised e ↦ finished (raised e)
              ],
              p.1,
            ))
            (tick-eq w t live),
      )

      turn_at-IsFine :
          (k : ℕ) (ws : List Worker) (w : W) (t : CancellationToken)
          → cancelled t ≡ false
          → All IsFine ws
          → (ws' : List Worker) × (w' : W) × All IsFine ws'
            × (turn_at host d deadline k ws (w, t) ≡ (ws', (w', t)))
      unfolding turn_at
      turn_at-IsFine k [] w t live fine = ([], w, tt, refl)
      turn_at-IsFine zero (x ∷ ws) w t live (f, fs) =
          let (x', w', f', e) = turn-IsFine x w t live f in
          (x' ∷ ws, w', (f', fs), ap (λ p. (p.0 ∷ ws, p.1)) e)
      turn_at-IsFine (suc k) (x ∷ ws) w t live (f, fs) =
          let (ws', w', fs', e) = turn_at-IsFine k ws w t live fs in
          (x ∷ ws', w', (f, fs'), ap (λ p. (x ∷ p.0, p.1)) e)

      take_turns-IsFine :
          (ks : List ℕ) (ws : List Worker) (w : W) (t : CancellationToken)
          → cancelled t ≡ false
          → All IsFine ws
          → (ws' : List Worker) × (w' : W) × All IsFine ws'
            × (take_turns host d deadline ks ws (w, t) ≡ (ws', (w', t)))
      unfolding take_turns
      take_turns-IsFine [] ws w t live fine = (ws, w, fine, refl)
      take_turns-IsFine (k ∷ ks) ws w t live fine =
          let (ws₁, w₁, fine₁, e) = turn_at-IsFine k ws w t live fine in
          let (ws₂, w₂, fine₂, e₂) = take_turns-IsFine ks ws₁ w₁ t live fine₁ in
          (ws₂, w₂, fine₂, ap (λ p. take_turns host d deadline ks p.0 p.1) e ∙ e₂)

      complete-Returns :
          (wk : Worker) (w : W) (t : CancellationToken)
          → cancelled t ≡ false
          → IsFine wk
          → Returns t (complete host d deadline wk (w, t))
      unfolding complete
      complete-Returns (running block i n acc) w t live fine =
          hash_loop-Returns d block i n acc w t live
      complete-Returns (finished (ok b)) w t live fine = (b, w, refl)
      complete-Returns (finished (raised e)) w t live fine = absurd fine

      complete_all-eq :
          (ws : List Worker) (w : W) (t : CancellationToken)
          → cancelled t ≡ false
          → All IsFine ws
          → (bs : List Bytes) × (rs : List (Result Bytes)) × (w' : W) × (results rs ≡ ok bs)
            × (complete_all host d deadline ws (w, t) ≡ (rs, (w', t)))
      unfolding complete_all results
      complete_all-eq [] w t live fine = ([], [], w, refl, refl)
      complete_all-eq (x ∷ ws) w t live (f, fs) =
          let (b, w₁, e) = complete-Returns x w t live f in
          let (bs, rs, w₂, all, e₂) = complete_all-eq ws w₁ t live fs in
          (
            b ∷ bs,
            ok b ∷ rs,
            w₂,
            rw all,
            ap (λ p. let (rs, s) = complete_all host d deadline ws p.1 in (p.0 ∷ rs, s)) e
                ∙ ap (λ p. (ok b ∷ p.0, p.1)) e₂,
          )

      submit-IsFine :
          (block_size index : ℕ) (counts : List ℕ) → All IsFine (submit d block_size index counts)
      unfolding submit
      submit-IsFine block_size index [] = tt
      submit-IsFine block_size index (count ∷ counts) =
          (tt, submit-IsFine block_size (index + 1) counts)

      -- On a host that stops nothing, with a token that is not cancelled, the pool returns the
      -- digests of its workers whatever turns they take, and it leaves the token as it was.
      pub run_pool_returns :
          (schedule : List ℕ) (block_size : ℕ) (counts : List ℕ) (w : W) (t : CancellationToken)
          → cancelled t ≡ false
          → (w' : W) × (run_pool host d deadline schedule (submit d block_size 0 counts) (w, t)
              ≡ (ok (worker_digests d block_size 0 counts), (w', t)))
      unfolding run_pool
      run_pool_returns schedule block_size counts w t live =
          let workers = submit d block_size 0 counts in
          let (ws, w₁, fine, e) =
            take_turns-IsFine schedule workers w t live (submit-IsFine block_size 0 counts) in
          let (bs, rs, w₂, all, e₂) = complete_all-eq ws w₁ t live fine in
          let finish : List (Result Bytes) × Session W → Result (List Bytes) × Session W =
            λ p. cancel_if_raised (results p.0) p.1 in
          let run =
            ap (λ p. finish (complete_all host d deadline p.0 p.1)) e
            ∙ ap finish e₂
            ∙ ap (λ r. cancel_if_raised r (w₂, t)) all in
          let same = run_pool-eq d host deadline schedule block_size counts (w, t) run in
          (w₂, run ∙ ap (λ bs. (ok bs, (w₂, t))) same)
