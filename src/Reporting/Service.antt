-- ===== src/Reporting/Service.antt =====
-- Reports from stored evidence (src/platval/reporting/service.py), over the artifact store. Jinja's
-- template and the joining of paths are arguments.
use pc_platform_validation_t.Base.{
  nat_eq, string_eq, option_eq, String, Bool, Option, none, some, if◌then◌else◌, ◌==◌, value_error,
  Result, ok, raise, true, false, List, [], ◌∷◌,
}
use pc_platform_validation_t.Persistence.Files.{FilePath, is_file, Files, Texts}
use pc_platform_validation_t.Persistence.Records.{ArtifactRecord, StoredRun}
use pc_platform_validation_t.Base.Action.{Action, ◌>>=◌, pure, lift}
use pc_platform_validation_t.Base.Floats.{Floats}
use pc_platform_validation_t.Persistence.Repository.{Codec}
use pc_platform_validation_t.Persistence.Artifacts.{
  Store, ask, write_derived_artifact, load_stored_run,
}
use pc_platform_validation_t.Reporting.View.{ReportView, Formats}
use pc_platform_validation_t.Reporting.View.Build.{build_report_view}
use pc_platform_validation_t.Reporting.Markdown.{render_markdown}

pub data ReportFormat : Type 0 where
  json markdown html : ReportFormat

pub record GeneratedReport : Type 0 where
  pub format : ReportFormat
  pub path : FilePath
  pub artifact : ArtifactRecord
  pub reused : Bool

-- `_REPORT_FILES`
unfoldable pub report_file : ReportFormat → Option (String × String)
report_file json = none
report_file markdown = some ("report.md", "report_markdown")
report_file html = some ("report.html", "report_html")

-- `next((item for item in artifacts if item.kind == "run_json"), None)`
abbrev pub canonical_artifact : List ArtifactRecord → Option ArtifactRecord
canonical_artifact [] = none
canonical_artifact (a ∷ artifacts) =
    let rest = canonical_artifact artifacts in if a.kind == "run_json" then some a else rest

-- What the service calls: Jinja's template, and `runtime / Path(text)`.
pub record Renderer (F : Type 0) : Type 0 where
  pub formats : Formats F
  pub render_html : ReportView F → Result String
  pub join_path : FilePath → String → FilePath

module _ {W F : Type 0} (fs : Files W) (renderer : Renderer F) where
  unfoldable pub locate_canonical : FilePath → List ArtifactRecord → W → Result GeneratedReport
  locate_canonical runtime artifacts w = elim (canonical_artifact artifacts) [
    | none ↦ raise value_error "stored run has no canonical JSON artifact"
    | some artifact ↦
        let path = renderer.join_path runtime artifact.relative_path in
        if is_file (fs.entry w path)
        then ok (record { format = json; path = path; artifact = artifact; reused = true })
        else raise value_error "canonical JSON artifact is missing from disk"
  ]

module _ {F : Type 0} (renderer : Renderer F) where
  unfoldable pub render : ReportFormat → ReportView F → Result String
  unfolding render_markdown
  render html view = renderer.render_html view
  render _ view = ok (render_markdown renderer.formats view)

module _ {W J F : Type 0} ⦃o : Floats F⦄ (fs : Files W) (texts : Texts F) (codec : Codec J F)
    (renderer : Renderer F) where
  unfoldable pub write_report :
      FilePath
      → String
      → ReportFormat
      → String × String
      → StoredRun F
      → Action (Store W J F) GeneratedReport
  unfolding build_report_view render write_derived_artifact
  write_report runtime run_id report_format (filename, kind) stored = do
    content ← lift (render renderer report_format (build_report_view renderer.formats stored))
    artifact ← write_derived_artifact fs texts codec runtime run_id filename kind content
    pure (record {
      format = report_format;
      path = renderer.join_path runtime artifact.relative_path;
      artifact = artifact;
      reused = false;
    })

  -- A format without a file of its own is the canonical JSON.
  unfoldable pub report_on :
      FilePath → String → ReportFormat → StoredRun F → Action (Store W J F) GeneratedReport
  unfolding locate_canonical report_file write_report
  report_on runtime run_id report_format stored = elim (report_file report_format) [
    | none ↦ ask (locate_canonical fs renderer runtime stored.artifacts)
    | some target ↦ write_report runtime run_id report_format target stored
  ]

  unfoldable pub generate_report :
      String → FilePath → ReportFormat → Action (Store W J F) GeneratedReport
  unfolding load_stored_run report_on
  generate_report run_id runtime_directory report_format = do
    runtime ← ask λ w. fs.resolve w runtime_directory
    stored ← load_stored_run fs texts codec run_id runtime
    report_on runtime run_id report_format stored
