-- ===== src/Examples/Policies.antt =====
-- The theorems on redactions, turn plans and made-up outcomes at concrete inputs.
use realtime_speech_pipeline.Base.{◌≡◌, ◌↔◌, refl, true, false, List, [], ◌∷◌, ok}
use realtime_speech_pipeline.Base.Lists.{All}
use realtime_speech_pipeline.EventAbi.Types.{
  PayloadClass, RedactionAction, RedactionDecision, is_redaction_action,
}
use realtime_speech_pipeline.SecurityPolicy.{
  RecordingLevel, ReplaySurface, validate_level, validate_surface, has_class,
  build_default_redaction_decisions, resolve_default_redaction_action,
}
use realtime_speech_pipeline.SecurityPolicy.Defaults.{
  classes, Distinct, Valid, is_sensitive, resolve_default-sensitive, build_default-covers,
}

known : (validate_surface ReplaySurface.or02 ≡ ok tt) × (validate_level RecordingLevel.l0 ≡ ok tt)
unfolding validate_surface validate_level
known = (refl, refl)

-- A class comes twice among the tags.
abbrev tags : List PayloadClass
tags = PayloadClass.metadata ∷ PayloadClass.phi ∷ []

resolve_default-sensitive_example :
    (action : RedactionAction) × (resolve_default_redaction_action ReplaySurface.or02
        RecordingLevel.l0 PayloadClass.phi
      ≡ ok action)
    × (is_redaction_action action ≡ true)
    × ((action ≡ RedactionAction.allow) ↔ (is_sensitive PayloadClass.phi ≡ false))
resolve_default-sensitive_example =
    resolve_default-sensitive ReplaySurface.or02 RecordingLevel.l0 PayloadClass.phi known refl

build_default-covers_example :
    (ds : List RedactionDecision) × (build_default_redaction_decisions ReplaySurface.or02
        RecordingLevel.l0
        (PayloadClass.phi ∷ tags)
      ≡ ok ds)
    × ((c : PayloadClass) → has_class c (classes ds) ≡ has_class c (PayloadClass.phi ∷ tags))
    × Distinct (classes ds)
    × All Valid ds
build_default-covers_example =
    build_default-covers ReplaySurface.or02 RecordingLevel.l0 PayloadClass.phi tags known
      (refl, (refl, (refl, tt)))
