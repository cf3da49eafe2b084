-- ===== src/Workloads/Integer/Pool.antt =====
-- Whatever the order of the turns, a worker's digest is the sequential one
-- (src/platval/workloads/cpu.py).
pub mod Returns
use mathlib.Core.Path.{subst}
use mathlib.Core.List.{append_assoc, append-nil}
use pc_platform_validation_t.Base.{
  nat_eq, string_eq, option_eq, Result, ok, raised, ℕ, zero, suc, ◌+◌, ◌≡◌, refl, sym, List, [],
  ◌∷◌, ◌++◌, ap, ◌∙◌, arith,
}
use pc_platform_validation_t.Base.Action.{◌>>=◌, pure, >>=-eq-ok, pure-eq-ok}
use pc_platform_validation_t.Base.Floats.{Floats}
use pc_platform_validation_t.Workloads.Host.{Bytes, Digests, Host, Session, tick}
use pc_platform_validation_t.Workloads.Integer.{
  worker_block, block_digest, Worker, running, finished, results, submit, hash_loop, turn,
  hash_worker, hash_workers, turn_at, take_turns, complete, complete_all, run_pool,
  cancel_if_raised,
}

returned :
    {A W : Type 0} (r : Result A) (s : Session W) {a : A} {s' : Session W}
    → cancel_if_raised r s ≡ (ok a, s')
    → r ≡ ok a
returned (ok b) s h = ground arith
returned (raised e) s h = ground arith

module _ (d : Digests) where
  -- The bytes that the hasher is given from iteration `i` on, in `n` iterations.
  abbrev pub rest_of : Bytes → ℕ → ℕ → Bytes
  rest_of block i zero = []
  rest_of block i (suc n) = block_digest d block i ++ rest_of block (i + 1) n

  -- The digest of a worker, as a function of its block and its iterations.
  abbrev pub worker_digest : ℕ → ℕ → ℕ → Bytes
  worker_digest block_size index count =
      d.sha256 (rest_of (worker_block d index block_size) 0 count)

  abbrev pub worker_digests : ℕ → ℕ → List ℕ → List Bytes
  worker_digests block_size index [] = []
  worker_digests block_size index (count ∷ counts) =
      worker_digest block_size index count ∷ worker_digests block_size (index + 1) counts

  -- A worker is on its way to the digest, or has it, or has raised.
  abbrev Heads : Bytes → Worker → Type 0
  Heads b (running block i n acc) = d.sha256 (acc ++ rest_of block i n) ≡ b
  Heads b (finished (ok b')) = b' ≡ b
  Heads b (finished (raised e)) = Unit

  abbrev AllHead : List Bytes → List Worker → Type 0
  AllHead [] [] = Unit
  AllHead (b ∷ bs) (w ∷ ws) = Heads b w × AllHead bs ws
  AllHead _ _ = ⊥

  abbrev Holds : Bytes → Result Bytes → Type 0
  Holds b (ok b') = b' ≡ b
  Holds b (raised e) = Unit

  abbrev AllHold : List Bytes → List (Result Bytes) → Type 0
  AllHold [] [] = Unit
  AllHold (b ∷ bs) (r ∷ rs) = Holds b r × AllHold bs rs
  AllHold _ _ = ⊥

  submit-AllHead :
      (block_size index : ℕ) (counts : List ℕ)
      → AllHead (worker_digests block_size index counts) (submit d block_size index counts)
  unfolding submit
  submit-AllHead block_size index [] = tt
  submit-AllHead block_size index (count ∷ counts) =
      (refl, submit-AllHead block_size (index + 1) counts)

  abbrev Gathers : List Bytes → Result (List Bytes) → Type 0
  Gathers bs (ok cs) = cs ≡ bs
  Gathers bs (raised e) = Unit

  results-Gathers :
      (bs : List Bytes) (rs : List (Result Bytes)) → AllHold bs rs → Gathers bs (results rs)
  unfolding results
  results-Gathers [] [] h = refl
  results-Gathers [] (r ∷ rs) h = elim h [ ]
  results-Gathers (b ∷ bs) [] h = elim h [ ]
  results-Gathers (b ∷ bs) (ok b' ∷ rs) (h, hs) =
      let next : Result (List Bytes) → Result (List Bytes) =
        λ r. elim r [ ok cs ↦ ok (b' ∷ cs) | raised e ↦ raised e ] in
      elim (results rs) as (λ r. Gathers bs r → Gathers (b ∷ bs) (next r)) [
        | ok cs ↦ λ g. ap (λ x. x ∷ cs) h ∙ ap (λ xs. b ∷ xs) g
        | raised e ↦ λ g. tt
      ]
        (results-Gathers bs rs hs)
  results-Gathers (b ∷ bs) (raised x ∷ rs) (h, hs) = tt

  module _ {F W : Type 0} ⦃o : Floats F⦄ (host : Host F W) (deadline : F) where
    turn-Heads :
        (b : Bytes) (w : Worker) (s : Session W) → Heads b w → Heads b (turn host d deadline w s).0
    unfolding turn
    turn-Heads b (finished r) s h = h
    turn-Heads b (running block i zero acc) s h = sym (ap d.sha256 (append-nil acc)) ∙ h
    turn-Heads b (running block i (suc n) acc) s h =
        elim (tick host deadline s).0
          as (λ r. Heads b (elim r [
            | ok _ ↦ running block (i + 1) n (acc ++ block_digest d block i)
            | raised e ↦ finished (raised e)
          ])) [
            | ok _ ↦ ap d.sha256 (append_assoc acc (block_digest d block i) _) ∙ h
            | raised e ↦ tt
          ]

    hash_loop-Holds :
        (b block : Bytes) (i n : ℕ) (acc : Bytes) (s : Session W)
        → d.sha256 (acc ++ rest_of block i n) ≡ b
        → Holds b (hash_loop host d deadline block i n acc s).0
    unfolding hash_loop
    hash_loop-Holds b block i zero acc s h = sym (ap d.sha256 (append-nil acc)) ∙ h
    hash_loop-Holds b block i (suc n) acc s h =
        let s' = (tick host deadline s).1 in
        let go = hash_loop host d deadline block (i + 1) n (acc ++ block_digest d block i) in
        let next : Result (Unit {0}) → Result Bytes × Session W =
          λ r. elim r [ ok _ ↦ go s' | raised e ↦ (raised e, s') ] in
        elim (tick host deadline s).0 as (λ r. Holds b (next r).0) [
          | ok _ ↦
              hash_loop-Holds b block (i + 1) n (acc ++ block_digest d block i) s'
                (ap d.sha256 (append_assoc acc (block_digest d block i) _) ∙ h)
          | raised e ↦ tt
        ]

    turn_at-AllHead :
        (k : ℕ) (bs : List Bytes) (ws : List Worker) (s : Session W)
        → AllHead bs ws
        → AllHead bs (turn_at host d deadline k ws s).0
    unfolding turn_at
    turn_at-AllHead k [] [] s h = tt
    turn_at-AllHead k [] (w ∷ ws) s h = elim h [ ]
    turn_at-AllHead k (b ∷ bs) [] s h = elim h [ ]
    turn_at-AllHead zero (b ∷ bs) (w ∷ ws) s (h, hs) = (turn-Heads b w s h, hs)
    turn_at-AllHead (suc k) (b ∷ bs) (w ∷ ws) s (h, hs) = (h, turn_at-AllHead k bs ws s hs)

    take_turns-AllHead :
        (ks : List ℕ) (bs : List Bytes) (ws : List Worker) (s : Session W)
        → AllHead bs ws
        → AllHead bs (take_turns host d deadline ks ws s).0
    unfolding take_turns
    take_turns-AllHead [] bs ws s h = h
    take_turns-AllHead (k ∷ ks) bs ws s h =
        let (ws', s') = turn_at host d deadline k ws s in
        take_turns-AllHead ks bs ws' s' (turn_at-AllHead k bs ws s h)

    complete-Holds :
        (b : Bytes) (w : Worker) (s : Session W)
        → Heads b w
        → Holds b (complete host d deadline w s).0
    unfolding complete
    complete-Holds b (running block i n acc) s h = hash_loop-Holds b block i n acc s h
    complete-Holds b (finished (ok b')) s h = h
    complete-Holds b (finished (raised e)) s h = tt

    complete_all-AllHold :
        (bs : List Bytes) (ws : List Worker) (s : Session W)
        → AllHead bs ws
        → AllHold bs (complete_all host d deadline ws s).0
    unfolding complete_all
    complete_all-AllHold [] [] s h = tt
    complete_all-AllHold [] (w ∷ ws) s h = elim h [ ]
    complete_all-AllHold (b ∷ bs) [] s h = elim h [ ]
    complete_all-AllHold (b ∷ bs) (w ∷ ws) s (h, hs) =
        (complete-Holds b w s h, complete_all-AllHold bs ws (complete host d deadline w s).1 hs)

    -- Whatever turns the workers take: if the pool returns, it returns the digests that the workers
    -- have on their own, in the order of their submission.
    pub run_pool-eq :
        (schedule : List ℕ) (block_size : ℕ) (counts : List ℕ) (s : Session W) {bs : List Bytes}
        {s' : Session W}
        → run_pool host d deadline schedule (submit d block_size 0 counts) s ≡ (ok bs, s')
        → bs ≡ worker_digests block_size 0 counts
    unfolding run_pool
    run_pool-eq schedule block_size counts s {bs} h =
        let workers = submit d block_size 0 counts in
        let (ws, s₁) = take_turns host d deadline schedule workers s in
        let heads = take_turns-AllHead schedule _ workers s (submit-AllHead block_size 0 counts) in
        let (rs, s₂) = complete_all host d deadline ws s₁ in
        let gathered = results-Gathers _ rs (complete_all-AllHold _ ws s₁ heads) in
        subst (Gathers (worker_digests block_size 0 counts)) (returned (results rs) s₂ h) gathered

    -- The sequential loop comes to the same digests.
    pub hash_workers-eq :
        (block_size index : ℕ) (counts : List ℕ) (s : Session W) {bs : List Bytes} {s' : Session W}
        → hash_workers host d deadline block_size index counts s ≡ (ok bs, s')
        → bs ≡ worker_digests block_size index counts
    unfolding hash_workers hash_worker
    hash_workers-eq block_size index [] s h = sym (pure-eq-ok [] s h)
    hash_workers-eq block_size index (count ∷ counts) s h =
        let block = worker_block d index block_size in
        let first = hash_loop host d deadline block 0 count [] in
        let rest = hash_workers host d deadline block_size (index + 1) counts in
        let (b, s₁, e, h₁) = >>=-eq-ok first (λ b. rest >>= λ bs. pure (b ∷ bs)) s h in
        let (bs, s₂, f, h₂) = >>=-eq-ok rest (λ bs. pure (b ∷ bs)) s₁ h₁ in
        let same : Holds (worker_digest block_size index count) (ok b) =
          subst (λ x. Holds (worker_digest block_size index count) x.0) e
            (hash_loop-Holds _ block 0 count [] s refl) in
        sym (pure-eq-ok (b ∷ bs) s₂ h₂)
        ∙ ap (λ x. x ∷ bs) same
        ∙ ap (λ xs. worker_digest block_size index count ∷ xs)
            (hash_workers-eq block_size (index + 1) counts s₁ f)
