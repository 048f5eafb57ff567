-- ===== src/SecurityPolicy.antt =====
-- internal/security/policy/policy.go: recording levels and the matrix of default redactions, and
-- internal/observability/timeline/redaction.go, which fills in the defaults of the timeline (OR-02).
pub mod Defaults
use realtime_speech_pipeline.Base.{
  ℕ, ◌+◌, String, Bool, true, false, ◌&&◌, ◌||◌, List, [], ◌∷◌, Result, ok, err, ◌>>=◌, ◌>>◌,
  refuse_if, ltb, eqb, if◌then◌else◌,
}
use realtime_speech_pipeline.EventAbi.Types.{
  PayloadClass, RedactionAction, RedactionDecision, validate_redaction,
}
use text.Mathlib.Text.{◌==◌}

pub data RecordingLevel : Type 0 where
  l0 l1 l2 : RecordingLevel
  other : String → RecordingLevel

pub data ReplaySurface : Type 0 where
  or01 or02 or03 : ReplaySurface
  other : String → ReplaySurface

-- `RecordingLevel(value)`
unfoldable pub level_of : String → RecordingLevel
level_of value =
    if value == "L0"
    then RecordingLevel.l0
    else if value == "L1"
    then RecordingLevel.l1
    else if value == "L2"
    then RecordingLevel.l2
    else RecordingLevel.other value

unfoldable pub validate_level : RecordingLevel → Result (Unit {0})
validate_level (RecordingLevel.other _) = err "invalid recording level: %q"
validate_level _ = ok tt

unfoldable pub parse_recording_level : String → Result RecordingLevel
parse_recording_level value = do validate_level (level_of value); ok (level_of value)

unfoldable pub validate_surface : ReplaySurface → Result (Unit {0})
validate_surface (ReplaySurface.other _) = err "invalid replay surface: %q"
validate_surface _ = ok tt

-- The rank, with one added: an unknown level is -1.
abbrev pub rank : RecordingLevel → ℕ
rank RecordingLevel.l0 = 1
rank RecordingLevel.l1 = 2
rank RecordingLevel.l2 = 3
rank (RecordingLevel.other _) = 0

unfoldable pub validate_automated_transition : (current next : RecordingLevel) → Result (Unit {0})
validate_automated_transition current next = do
  validate_level current
  validate_level next
  refuse_if (ltb (rank current) (rank next)) "recording level auto-upgrade forbidden: %s -> %s"

unsupported : Result RedactionAction
unsupported = err "unsupported redaction matrix entry for surface=%s class=%s level=%s"

-- The matrix: the outer switch on the surface, the inner ones on the class and the level.
unfoldable pub matrix : ReplaySurface → RecordingLevel → PayloadClass → Result RedactionAction
unfolding unsupported
matrix ReplaySurface.or01 _ PayloadClass.audio_raw = ok RedactionAction.drop
matrix ReplaySurface.or01 _ PayloadClass.text_raw = ok RedactionAction.mask
matrix ReplaySurface.or01 _ PayloadClass.pii = ok RedactionAction.drop
matrix ReplaySurface.or01 _ PayloadClass.phi = ok RedactionAction.drop
matrix ReplaySurface.or02 RecordingLevel.l0 PayloadClass.audio_raw = ok RedactionAction.drop
matrix ReplaySurface.or02 RecordingLevel.l1 PayloadClass.audio_raw = ok RedactionAction.mask
matrix ReplaySurface.or02 _ PayloadClass.audio_raw = ok RedactionAction.hash
matrix ReplaySurface.or02 RecordingLevel.l0 PayloadClass.text_raw = ok RedactionAction.hash
matrix ReplaySurface.or02 _ PayloadClass.text_raw = ok RedactionAction.mask
matrix ReplaySurface.or02 _ PayloadClass.pii = ok RedactionAction.hash
matrix ReplaySurface.or02 RecordingLevel.l0 PayloadClass.phi = ok RedactionAction.drop
matrix ReplaySurface.or02 _ PayloadClass.phi = ok RedactionAction.hash
matrix ReplaySurface.or03 _ PayloadClass.audio_raw = ok RedactionAction.drop
matrix ReplaySurface.or03 _ PayloadClass.text_raw = ok RedactionAction.mask
matrix ReplaySurface.or03 _ PayloadClass.pii = ok RedactionAction.tokenize
matrix ReplaySurface.or03 _ PayloadClass.phi = ok RedactionAction.tokenize
matrix (ReplaySurface.other _) _ _ = unsupported
matrix _ _ PayloadClass.derived_summary = ok RedactionAction.allow
matrix _ _ PayloadClass.metadata = ok RedactionAction.allow
matrix _ _ _ = unsupported

unfoldable pub resolve_default_redaction_action :
    ReplaySurface → RecordingLevel → PayloadClass → Result RedactionAction
resolve_default_redaction_action surface level class = do
  validate_surface surface
  validate_level level
  validate_redaction (record { payload_class = class; action = RedactionAction.allow })
  matrix surface level class

-- A Go map with payload classes for keys asks whether two are the same text.
abbrev class_number : PayloadClass → ℕ
class_number PayloadClass.pii = 0
class_number PayloadClass.phi = 1
class_number PayloadClass.audio_raw = 2
class_number PayloadClass.text_raw = 3
class_number PayloadClass.derived_summary = 4
class_number PayloadClass.metadata = 5
class_number (PayloadClass.other _) = 6

abbrev class_text : PayloadClass → String
class_text (PayloadClass.other s) = s
class_text _ = ""

unfoldable pub same_class : PayloadClass → PayloadClass → Bool
same_class a b = eqb (class_number a) (class_number b) && class_text a == class_text b

unfoldable pub has_class : PayloadClass → List PayloadClass → Bool
has_class c [] = false
has_class c (d ∷ ds) = same_class d c || has_class c ds

-- The loop over the tags, with the classes seen so far.
unfoldable pub default_decisions :
    ReplaySurface
    → RecordingLevel
    → (seen : List PayloadClass) → List PayloadClass
    → Result (List RedactionDecision)
default_decisions surface level seen [] = ok []
default_decisions surface level seen (tag ∷ tags) =
    let skipped = default_decisions surface level seen tags in
    let later = default_decisions surface level (tag ∷ seen) tags in
    if has_class tag seen then skipped else (do
      action ← resolve_default_redaction_action surface level tag
      validate_redaction (record { payload_class = tag; action = action })
      decisions ← later
      ok (record { payload_class = tag; action = action } ∷ decisions))

unfoldable pub build_default_redaction_decisions :
    ReplaySurface → RecordingLevel → List PayloadClass → Result (List RedactionDecision)
build_default_redaction_decisions surface level [] = err "at least one payload tag is required"
build_default_redaction_decisions surface level (tag ∷ tags) =
    default_decisions surface level [] (tag ∷ tags)

unfoldable pub default_or02_redaction_decisions :
    String → List PayloadClass → Result (List RedactionDecision)
default_or02_redaction_decisions recording_level tags = do
  level ← parse_recording_level recording_level
  build_default_redaction_decisions ReplaySurface.or02 level tags

abbrev wrapped : Result (List RedactionDecision) → Result (List RedactionDecision)
wrapped (ok decisions) = ok decisions
wrapped (err _) = err "resolve default OR-02 redaction decisions: %w"

unfoldable pub ensure_or02_redaction_decisions :
    String → List PayloadClass → List RedactionDecision → Result (List RedactionDecision)
ensure_or02_redaction_decisions recording_level tags [] =
    wrapped (default_or02_redaction_decisions recording_level tags)
ensure_or02_redaction_decisions recording_level tags (d ∷ ds) = ok (d ∷ ds)
