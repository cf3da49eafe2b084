-- ===== src/Persistence/Repository/Writes.antt =====
-- Any sequence of the repository's writes (src/platval/persistence/repository.py).
use mathlib.Core.Path.{subst}
use mathlib.Core.List.{append_assoc}
use pc_platform_validation_t.Base.{
  any, ◌==◌, ==_iff, nat_eq, string_eq, option_eq, All, String, ◌≡◌, sym, true, false, not, List,
  [], ◌∷◌, ◌++◌, arith, refl, ap, ◌∙◌, ◌⊎◌, inl, inr,
}
use pc_platform_validation_t.Models.Results.{Timestamp}
use pc_platform_validation_t.Runner.Run.{RunExecution}
use pc_platform_validation_t.Persistence.Records.{ArtifactRecord}
use pc_platform_validation_t.Persistence.Database.{
  RunRow, BaselineRow, Database, select, has_run, insert_artifact, insert_baseline, delete_run_rows,
  delete_platform,
}
use pc_platform_validation_t.Persistence.Repository.{
  transaction, initialize, add_artifact, Codec, save_execution,
}
use pc_platform_validation_t.Persistence.Repository.Baselines.{create_baseline, delete_run}
use pc_platform_validation_t.Persistence.Repository.Integrity.{Extends, save_execution-IsExtending}

pub data Write (F : Type 0) : Type 0 where
  save : Timestamp → RunExecution F → List ArtifactRecord → Write F
  attach : String → ArtifactRecord → Write F
  register : Timestamp → String → String → Write F
  remove : String → Write F

module _ {J : Type 0} where
  any-select_ne :
      (run_id id : String) (rs : List (RunRow J))
      → (id == run_id) ≡ false
      → any (λ (r : RunRow J). r.run_id == id) rs ≡ true
      → any
          (λ (r : RunRow J). r.run_id == id)
          (select (λ (r : RunRow J). not (r.run_id == run_id)) rs)
        ≡ true
  any-select_ne run_id id [] ne h = h
  any-select_ne run_id id (r ∷ rs) ne h =
      ground (arith, any-select_ne run_id id rs ne, ==_iff r.run_id id, ==_iff r.run_id run_id)

  abbrev SourcesIn : List (RunRow J) → List BaselineRow → Type 0
  SourcesIn rs = All (λ b. any (λ (r : RunRow J). r.run_id == b.source_run_id) rs ≡ true)

  SourcesIn-select :
      (run_id : String) (rs : List (RunRow J)) (bs : List BaselineRow)
      → any (λ (b : BaselineRow). b.source_run_id == run_id) bs ≡ false
      → SourcesIn rs bs
      → SourcesIn (select (λ (r : RunRow J). not (r.run_id == run_id)) rs) bs
  SourcesIn-select run_id rs [] ne h = tt
  SourcesIn-select run_id rs (b ∷ bs) ne h = (
    any-select_ne run_id b.source_run_id rs (ground arith) (h.0),
    SourcesIn-select run_id rs bs (ground arith) (h.1),
  )

module _ {J F : Type 0} where
  -- Each baseline's source run is in the database.
  abbrev pub HasSources : Database J F → Type 0
  HasSources db = All (λ b. has_run b.source_run_id db ≡ true) db.baselines

  sources_mono :
      (db db' : Database J F) (bs : List BaselineRow)
      → ((id : String) → has_run id db ≡ true → has_run id db' ≡ true)
      → All (λ b. has_run b.source_run_id db ≡ true) bs
      → All (λ b. has_run b.source_run_id db' ≡ true) bs
  sources_mono db db' [] f h = tt
  sources_mono db db' (b ∷ bs) f h = (f b.source_run_id (h.0), sources_mono db db' bs f (h.1))

  Extends-HasSources : (db db' : Database J F) → Extends db db' → HasSources db → HasSources db'
  Extends-HasSources db db' e h =
      subst (All (λ b. has_run b.source_run_id db' ≡ true)) (sym e.baselines)
        (sources_mono db db' db.baselines e.runs h)

  -- After an operation: the sources are there, and the baselines are the old ones, with new ones
  -- before them.
  abbrev pub Keeps : Database J F → Database J F → Type 0
  Keeps db db' = HasSources db' × (bs : List BaselineRow) × (db'.baselines ≡ bs ++ db.baselines)

  add_artifact-Keeps :
      (run_id : String) (a : ArtifactRecord) (db : Database J F)
      → HasSources db
      → Keeps db (add_artifact run_id a db).1
  unfolding add_artifact initialize transaction insert_artifact
  add_artifact-Keeps run_id a db h =
      let db' = (add_artifact run_id a db).1 in
      let e : Extends db db' = record { runs = λ id p. ground arith; baselines = ground arith } in
      (Extends-HasSources db db' e h, [], e.baselines)

  -- Either nothing was inserted, or a baseline of a run that is there.
  created :
      (now : Timestamp) (name run_id : String) (db : Database J F)
      → let db' = (create_baseline now name run_id db).1 in
        (db'.runs ≡ db.runs)
        × ((db'.baselines ≡ db.baselines)
            ⊎ ((has_run run_id db ≡ true)
                × (db'.baselines
                    ≡ record { name = name; source_run_id = run_id; created_at = now }
                      ∷ db.baselines)))
  unfolding create_baseline initialize transaction insert_baseline
  created now name run_id db = ground arith

  create_baseline-Keeps :
      (now : Timestamp) (name run_id : String) (db : Database J F)
      → HasSources db
      → Keeps db (create_baseline now name run_id db).1
  create_baseline-Keeps now name run_id db h =
      let (runs, outcome) = created now name run_id db in
      let keep : HasSources db
          → SourcesIn (create_baseline now name run_id db).1.runs db.baselines =
        subst (λ rs. SourcesIn rs db.baselines) (sym runs) in
      elim outcome [
        | inl same ↦ (subst (SourcesIn _) (sym same) (keep h), [], same)
        | inr (there, added) ↦ (
          subst (SourcesIn _) (sym added) (
            subst (λ rs. any (λ (r : RunRow J). r.run_id == run_id) rs ≡ true) (sym runs) there,
            keep h,
          ),
          _ ∷ [],
          added,
        )
      ]

  -- Either every run stays, or the one that goes is no baseline's source.
  removed :
      (run_id : String) (db : Database J F)
      → let db' = (delete_run run_id db).1 in
        (db'.baselines ≡ db.baselines)
        × ((db'.runs ≡ db.runs)
            ⊎ ((any (λ (b : BaselineRow). b.source_run_id == run_id) db.baselines ≡ false)
                × (db'.runs ≡ select (λ (r : RunRow J). not (r.run_id == run_id)) db.runs)))
  unfolding delete_run initialize transaction delete_run_rows delete_platform
  removed run_id db = ground arith

  delete_run-Keeps :
      (run_id : String) (db : Database J F) → HasSources db → Keeps db (delete_run run_id db).1
  delete_run-Keeps run_id db h =
      let (same, outcome) = removed run_id db in
      let stay : SourcesIn (delete_run run_id db).1.runs db.baselines = elim outcome [
        | inl runs ↦ subst (λ rs. SourcesIn rs db.baselines) (sym runs) h
        | inr (free, runs) ↦
            subst (λ rs. SourcesIn rs db.baselines) (sym runs)
              (SourcesIn-select run_id db.runs db.baselines free h)
      ] in
      (subst (SourcesIn _) (sym same) stay, [], same)

module _ {J F : Type 0} (codec : Codec J F) where
  -- The database that a call of the repository leaves, whether it returns or raises.
  abbrev pub perform : Write F → Database J F → Database J F
  perform (save now execution artifacts) db = (save_execution codec now execution artifacts db).1
  perform (attach run_id artifact) db = (add_artifact run_id artifact db).1
  perform (register now name run_id) db = (create_baseline now name run_id db).1
  perform (remove run_id) db = (delete_run run_id db).1

  abbrev pub perform_all : List (Write F) → Database J F → Database J F
  perform_all [] db = db
  perform_all (w ∷ ws) db = perform_all ws (perform w db)

  perform-Keeps : (w : Write F) (db : Database J F) → HasSources db → Keeps db (perform w db)
  perform-Keeps (save now execution artifacts) db h =
      let db' = (save_execution codec now execution artifacts db).1 in
      let e = (save_execution-IsExtending codec now execution artifacts).extends db in
      (Extends-HasSources db db' e h, [], e.baselines)
  perform-Keeps (attach run_id artifact) db h = add_artifact-Keeps run_id artifact db h
  perform-Keeps (register now name run_id) db h = create_baseline-Keeps now name run_id db h
  perform-Keeps (remove run_id) db h = delete_run-Keeps run_id db h

  -- Whatever sequence of saves, added artifacts, new baselines and deletions follows, and whether
  -- they return or raise: if every baseline's source run was in the database, every baseline's is,
  -- and the baselines there were are still there, unchanged, behind the new ones.
  pub perform_all-Keeps :
      (ws : List (Write F)) (db : Database J F) → HasSources db → Keeps db (perform_all ws db)
  perform_all-Keeps [] db h = (h, [], refl)
  perform_all-Keeps (w ∷ ws) db h =
      let (sources, new, e) = perform-Keeps w db h in
      let (sources', newer, e') = perform_all-Keeps ws (perform w db) sources in
      (
        sources',
        newer ++ new,
        e' ∙ ap (λ bs. newer ++ bs) e ∙ sym (append_assoc newer new db.baselines),
      )
