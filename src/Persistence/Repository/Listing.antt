-- ===== src/Persistence/Repository/Listing.antt =====
-- Failed writes, and what the lists hold (src/platval/persistence/repository.py).
use pc_platform_validation_t.Base.{
  ◌==◌, nat_eq, string_eq, option_eq, length, All, succeeds, ◌+◌, ◌≡◌, refl, ◌⊎◌, Bool, true, false,
  List, [], ◌∷◌, arith, ok, ◌∙◌,
}
use pc_platform_validation_t.Base.Action.{◌>>=◌, ◌>>◌}
use pc_platform_validation_t.Persistence.Database.{RunRow, BaselineRow, Database, has_run, number}
use pc_platform_validation_t.Persistence.Repository.{
  Codec, insert_sorted, order_by, Query, transaction, initialize, add_artifact, save_execution,
  text_leb, execute, save_rows, save_platform,
}
use pc_platform_validation_t.Persistence.Repository.Baselines.{
  create_baseline, joined, delete_run, list_baselines,
}
use pc_platform_validation_t.Persistence.Repository.Lifecycle.{is_some-find, migrated}
use pc_platform_validation_t.Persistence.Repository.Writes.{
  Write, save, attach, register, remove, perform, HasSources,
}
use pc_platform_validation_t.Base.Int.{pos}
use pc_platform_validation_t.Persistence.Records.{BaselineRecord}

module _ {J F : Type 0} where
  transaction-raised :
      {A : Type 0} (body : Query J F A) (db : Database J F)
      → succeeds ((initialize >>= λ _. transaction body) db).0 ≡ false
      → (((initialize >>= λ _. transaction body) db).1 ≡ db)
        ⊎ (((initialize >>= λ _. transaction body) db).1 ≡ migrated db)
  unfolding initialize transaction
  transaction-raised body db h = ground arith

  length-joined :
      (db : Database J F) (bs : List BaselineRow)
      → All (λ b. has_run b.source_run_id db ≡ true) bs
      → length (joined db bs) ≡ length bs
  length-joined db [] h = refl
  length-joined db (b ∷ bs) h = ground (
    arith,
    length-joined db bs (h.1),
    is_some-find (λ (r : RunRow J). r.run_id == b.source_run_id) db.runs,
  )

length-insert_sorted :
    {A : Type 0} (leq : A → A → Bool) (a : A) (xs : List A)
    → length (insert_sorted leq a xs) ≡ length xs + 1
length-insert_sorted leq a [] = refl
length-insert_sorted leq a (x ∷ xs) = ground (arith, length-insert_sorted leq a xs)

length-order_by :
    {A : Type 0} (leq : A → A → Bool) (xs : List A) → length (order_by leq xs) ≡ length xs
unfolding order_by
length-order_by leq [] = refl
length-order_by leq (x ∷ xs) =
    ground (arith, length-order_by leq xs, length-insert_sorted leq x (order_by leq xs))

module _ {J F : Type 0} (codec : Codec J F) where
  -- The write returns.
  abbrev pub completes : Write F → Database J F → Bool
  completes (save now execution artifacts) db =
      succeeds (save_execution codec now execution artifacts db).0
  completes (attach run_id artifact) db = succeeds (add_artifact run_id artifact db).0
  completes (register now name run_id) db = succeeds (create_baseline now name run_id db).0
  completes (remove run_id) db = succeeds (delete_run run_id db).0

  -- A write that raises leaves every table as it was, whichever of its statements failed: at most
  -- the version of the schema was written before.
  pub perform_atomic :
      (w : Write F) (db : Database J F)
      → completes w db ≡ false
      → (perform codec w db ≡ db) ⊎ (perform codec w db ≡ migrated db)
  unfolding save_execution add_artifact create_baseline delete_run initialize transaction
  perform_atomic (save now execution artifacts) db h =
      let start = execute (save_platform codec now execution.platform) in
      transaction-raised (start >> save_rows codec now execution artifacts) db h
  perform_atomic (attach run_id artifact) db h = ground arith
  perform_atomic (register now name run_id) db h = ground arith
  perform_atomic (remove run_id) db h = ground arith

module _ {J F : Type 0} where
  -- Where every baseline's source run is in a database of this schema, the list of baselines has all
  -- of them.
  pub list_baselines_complete :
      (db : Database J F)
      → db.schema_version ≡ number (pos 1)
      → HasSources db
      → (bs : List BaselineRecord) × (list_baselines db ≡ (ok bs, db))
        × (length bs ≡ length db.baselines)
  unfolding list_baselines initialize
  list_baselines_complete db v h =
      let sorted = order_by (λ a b. text_leb a.name b.name) (joined db db.baselines) in
      (
        sorted,
        ground arith,
        length-order_by _ (joined db db.baselines) ∙ length-joined db db.baselines h,
      )
