-- ===== src/NativeProbe.antt =====
-- The boundary of the native CPUID probe (src/platval/inventory/native_probe.py).
pub mod Outcome
use pc_platform_validation_t.Base
use Prim.Native.Char.{Char, code}
use pc_platform_validation_t.Base.{
  ltb, leb, if◌then◌else◌, all, ◌==◌, nat_eq, string_eq, option_eq, length, value_error, Exception,
  is_value_error, is_os_error, Result, ok, raised, raise_if, ℕ, zero, suc, String, ◌<>◌, Bool, true,
  false, not, ◌&&◌, ◌||◌, Option, none, some, List, [], raise,
}
use pc_platform_validation_t.Base.Action.{Action, ◌>>=◌, ◌>>◌, pure, lift, query}
use pc_platform_validation_t.Base.Int.{ℤ, pos, ltb_ℤ, leb_ℤ, beq_ℤ}
use pc_platform_validation_t.Models.Plan.{text_length}

pub data NativeProbeStatus : Type 0 where
  available missing incompatible error : NativeProbeStatus

pub record NativeFeatureSet : Type 0 where
  pub sse2 : Bool
  pub sse41 : Bool
  pub sse42 : Bool
  pub avx_hardware : Bool
  pub avx2_hardware : Bool
  pub avx_os_enabled : Bool
  pub aes : Bool
  pub vmx : Bool
  pub svm : Bool
  pub virtualization_hardware : Bool

pub record NativeCacheDescriptor : Type 0 where
  pub level : ℤ
  pub kind : String
  pub size_bytes : ℤ
  pub line_size_bytes : ℤ
  pub sets : ℤ
  pub ways : ℤ
  pub partitions : ℤ

pub record NativeProbeData : Type 0 where
  pub schema_version : ℤ
  pub probe_version : String
  pub architecture : String
  pub vendor_id : String
  pub brand_string : Option String
  pub max_basic_leaf : ℤ
  pub max_extended_leaf : ℤ
  pub features : NativeFeatureSet
  pub caches : List NativeCacheDescriptor

pub record NativeProbeOutcome : Type 0 where
  pub status : NativeProbeStatus
  pub data_of : Option NativeProbeData
  pub limitation : Option String
  pub stderr_summary : Option String

-- The bounds of the fields of a cache.
unfoldable pub cache_is_valid : NativeCacheDescriptor → Bool
cache_is_valid c =
    leb_ℤ (pos 1) c.level
    && leb_ℤ c.level (pos 4)
    && (c.kind == "data" || c.kind == "instruction" || c.kind == "unified")
    && ltb_ℤ (pos 0) c.size_bytes
    && ltb_ℤ (pos 0) c.line_size_bytes
    && ltb_ℤ (pos 0) c.sets
    && ltb_ℤ (pos 0) c.ways
    && ltb_ℤ (pos 0) c.partitions

-- The bounds of the fields of a document.
unfoldable pub fields_are_valid : NativeProbeData → Bool
unfolding cache_is_valid text_length
fields_are_valid p =
    leb 1 (text_length p.probe_version)
    && leb (text_length p.probe_version) 64
    && (p.architecture == "x86" || p.architecture == "x86_64")
    && leb 1 (text_length p.vendor_id)
    && leb (text_length p.vendor_id) 12
    && elim p.brand_string [ none ↦ true | some s ↦ leb (text_length s) 48 ]
    && leb_ℤ (pos 0) p.max_basic_leaf
    && leb_ℤ (pos 0) p.max_extended_leaf
    && all cache_is_valid p.caches

unfoldable pub schema_is_compatible : ℤ → Bool
schema_is_compatible value = beq_ℤ value (pos 1)

-- `NativeProbeData.model_validate` of a document with the right types.
unfoldable pub validate_probe_data : NativeProbeData → Result NativeProbeData
unfolding fields_are_valid schema_is_compatible
validate_probe_data p =
    if not (fields_are_valid p)
    then raise value_error "field is out of bounds"
    else if not (schema_is_compatible p.schema_version)
    then raise value_error "unexpected native probe schema"
    else ok p

-- The characters at which `str.split()` splits.
abbrev is_space : ℕ → Bool
is_space c =
    (leb 9 c && leb c 13)
    || (leb 28 c && leb c 32)
    || c == 133
    || c == 160
    || c == 5760
    || (leb 8192 c && leb c 8202)
    || c == 8232
    || c == 8233
    || c == 8239
    || c == 8287
    || c == 12_288

-- `" ".join(s.split())`, where a space is due before the next word when `due`.
unfoldable pub join_words : Bool → Bool → String → String
join_words started due String.[] = String.[]
join_words started due (String.◌∷◌ c s) =
    if is_space (code c)
    then join_words started started s
    else if due
    then " " <> String.◌∷◌ c (join_words true false s)
    else String.◌∷◌ c (join_words true false s)

-- `s[:n]`
unfoldable pub take_text : ℕ → String → String
take_text zero s = String.[]
take_text (suc n) String.[] = String.[]
take_text (suc n) (String.◌∷◌ c s) = String.◌∷◌ c (take_text n s)

unfoldable pub summarize_stderr : String → Option String
unfolding join_words take_text
summarize_stderr stderr =
    let normalized = join_words false false stderr in
    if normalized == "" then none else some (take_text 500 normalized)

-- What `subprocess.run` comes to.
pub data Completion : Type 0 where
  completed : ℤ → String → String → Completion
  timeout_expired : Completion
  failed : Exception → Completion

-- What is read of Python's library: paths, `subprocess.run`, `str` of a number, `:g` of a float, the name of an exception's
-- class, the length of a text in UTF-8, and a JSON document as data with the right types.
pub record ProbeHost (F W : Type 0) : Type 0 where
  pub is_windows : Bool
  pub resolve : String → Action W String
  pub which : String → W → Option String × W
  pub is_file : String → W → Bool × W
  pub run : String → F → W → Completion × W
  pub decimal : ℤ → String
  pub general : F → String
  pub type_name : Exception → String
  pub utf8_length : String → ℕ
  pub load_document : String → Result NativeProbeData

unfoldable pub missing_outcome : NativeProbeOutcome
missing_outcome = record {
  status = missing;
  data_of = none;
  limitation = some "Native CPUID probe is not installed; CPU feature detail is unavailable.";
  stderr_summary = none;
}

abbrev pub failure : NativeProbeStatus → String → Option String → NativeProbeOutcome
failure status limitation stderr_summary = record {
  status = status;
  data_of = none;
  limitation = some limitation;
  stderr_summary = stderr_summary;
}

module _ {F W : Type 0} (host : ProbeHost F W) where
  -- `Path(discovered).resolve() if discovered else None`
  unfoldable pub resolve_discovered : Option String → Action W (Option String)
  resolve_discovered none = pure none
  resolve_discovered (some path) =
      if path == "" then pure none else host.resolve path >>= λ found. pure (some found)

  unfoldable pub locate_native_probe : Option String → Action W (Option String)
  unfolding resolve_discovered
  locate_native_probe (some explicit_path) = do
    candidate ← host.resolve explicit_path
    there ← query (host.is_file candidate)
    pure (if there then some candidate else none)
  locate_native_probe none = do
    discovered ← query (host.which (if host.is_windows then "cpuid_probe.exe" else "cpuid_probe"))
    resolve_discovered discovered

  -- `except (json.JSONDecodeError, ValidationError)`, which are ValueErrors, and the outcome.
  unfoldable pub probe_outcome : Option String → Result NativeProbeData → Result NativeProbeOutcome
  probe_outcome stderr_summary (ok data_of) = ok (record {
    status = available;
    data_of = some data_of;
    limitation = none;
    stderr_summary = stderr_summary;
  })
  probe_outcome stderr_summary (raised e) =
      if is_value_error e.class
      then ok (
          failure incompatible
            ("Native CPUID probe response failed validation (" <> host.type_name e <> ").")
            stderr_summary)
      else raised e

  unfoldable pub read_probe_data : String → Option String → Result NativeProbeOutcome
  unfolding validate_probe_data probe_outcome
  read_probe_data stdout stderr_summary =
      probe_outcome stderr_summary (Base.◌>>=◌ (host.load_document stdout) validate_probe_data)

  unfoldable pub judge_completion : F → Completion → Result NativeProbeOutcome
  unfolding summarize_stderr read_probe_data
  judge_completion timeout_seconds timeout_expired = ok (
      failure error
        ("Native CPUID probe exceeded its " <> host.general timeout_seconds <> "-second timeout.")
        none)
  judge_completion timeout_seconds (failed e) =
      if is_os_error e.class
      then ok
          (failure error ("Native CPUID probe could not start (" <> host.type_name e <> ").") none)
      else raised e
  judge_completion timeout_seconds (completed returncode stdout stderr) =
      let stderr_summary = summarize_stderr stderr in
      if not (beq_ℤ returncode (pos 0))
      then ok (
          failure error ("Native CPUID probe exited with code " <> host.decimal returncode <> ".")
            stderr_summary)
      else if ltb 1_048_576 (host.utf8_length stdout)
      then ok (
          failure error "Native CPUID probe returned an unexpectedly large response."
            stderr_summary)
      else read_probe_data stdout stderr_summary

  unfoldable pub run_probe : String → F → Action W NativeProbeOutcome
  unfolding judge_completion
  run_probe executable timeout_seconds = do
    completion ← query (host.run executable timeout_seconds)
    lift (judge_completion timeout_seconds completion)

  unfoldable pub invoke_native_probe : Option String → F → Action W NativeProbeOutcome
  unfolding run_probe missing_outcome
  invoke_native_probe none timeout_seconds = pure missing_outcome
  invoke_native_probe (some executable) timeout_seconds = do
    there ← query (host.is_file executable)
    if there then run_probe executable timeout_seconds else pure missing_outcome
