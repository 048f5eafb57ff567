-- ===== src/SecurityPolicy/Defaults.antt =====
-- What the default redactions of internal/security/policy/policy.go and
-- internal/observability/timeline/redaction.go are.
use realtime_speech_pipeline.Base.{
  sym, ◌≡◌, ◌↔◌, refl, Bool, true, false, not, ◌&&◌, List, [], ◌∷◌, Result, ok, arith, ap, ◌≤◌, inl,
  inr, Bool-cases,
}
use realtime_speech_pipeline.Base.Lists.{All}
use realtime_speech_pipeline.EventAbi.Types.{
  PayloadClass, RedactionAction, RedactionDecision, is_payload_class, is_redaction_action,
  validate_redaction,
}
use realtime_speech_pipeline.SecurityPolicy.{
  RecordingLevel, ReplaySurface, validate_level, validate_surface, rank, matrix, same_class,
  has_class, validate_automated_transition, resolve_default_redaction_action, default_decisions,
  build_default_redaction_decisions,
}
use text.Mathlib.TextEquality.{eq_iff}
use text.Mathlib.TextPositions.{eq_refl}

same_class-eq : (a b : PayloadClass) → same_class a b ≡ true → a ≡ b
unfolding same_class
same_class-eq (PayloadClass.other s) (PayloadClass.other t) h =
    ap PayloadClass.other ((eq_iff s t).0 h)
same_class-eq PayloadClass.pii PayloadClass.pii h = refl
same_class-eq PayloadClass.phi PayloadClass.phi h = refl
same_class-eq PayloadClass.audio_raw PayloadClass.audio_raw h = refl
same_class-eq PayloadClass.text_raw PayloadClass.text_raw h = refl
same_class-eq PayloadClass.derived_summary PayloadClass.derived_summary h = refl
same_class-eq PayloadClass.metadata PayloadClass.metadata h = refl
same_class-eq _ _ h = cc

same_class_self : (a : PayloadClass) → same_class a a ≡ true
unfolding same_class
same_class_self (PayloadClass.other s) = eq_refl s
same_class_self _ = refl

-- An automated change of the recording level is accepted exactly when both levels are known and the
-- fidelity does not go up.
pub automated_transition-downgrades :
    (current next : RecordingLevel)
    → (validate_automated_transition current next ≡ ok tt) ↔ (
        (validate_level current ≡ ok tt)
        × (validate_level next ≡ ok tt)
        × (rank next ≤ rank current))
unfolding validate_automated_transition validate_level
automated_transition-downgrades current next = (ground arith, ground arith)

-- What must not leave the program as it is.
abbrev pub is_sensitive : PayloadClass → Bool
is_sensitive PayloadClass.pii = true
is_sensitive PayloadClass.phi = true
is_sensitive PayloadClass.audio_raw = true
is_sensitive PayloadClass.text_raw = true
is_sensitive _ = false

-- A surface and a level that the source knows.
abbrev pub Known : ReplaySurface → RecordingLevel → Type 0
Known surface level = (validate_surface surface ≡ ok tt) × (validate_level level ≡ ok tt)

abbrev Chosen : PayloadClass → Result RedactionAction → Type 0
Chosen class chosen =
    (action : RedactionAction) × (chosen ≡ ok action)
    × (is_redaction_action action ≡ true)
    × ((action ≡ RedactionAction.allow) ↔ (is_sensitive class ≡ false))

is_allow : RedactionAction → Bool
is_allow RedactionAction.allow = true
is_allow _ = false

not_allowed :
    (a : RedactionAction) → is_allow a ≡ false → (a ≡ RedactionAction.allow) ↔ (true ≡ false)
unfolding is_allow
not_allowed a h = (λ e. cc (ap is_allow e), λ e. cc)

matrix-Chosen :
    (surface : ReplaySurface) (level : RecordingLevel) (class : PayloadClass)
    → Known surface level
    → is_payload_class class ≡ true
    → Chosen class (matrix surface level class)
unfolding matrix validate_surface validate_level is_allow
matrix-Chosen (ReplaySurface.other _) level class (s, l) h = cc
matrix-Chosen ReplaySurface.or01 (RecordingLevel.other _) class (s, l) h = cc
matrix-Chosen ReplaySurface.or02 (RecordingLevel.other _) class (s, l) h = cc
matrix-Chosen ReplaySurface.or03 (RecordingLevel.other _) class (s, l) h = cc
matrix-Chosen _ _ (PayloadClass.other _) (s, l) h = cc
matrix-Chosen ReplaySurface.or01 _ PayloadClass.derived_summary k h =
    (_, refl, refl, (λ e. refl, λ e. refl))
matrix-Chosen ReplaySurface.or01 _ PayloadClass.metadata k h =
    (_, refl, refl, (λ e. refl, λ e. refl))
matrix-Chosen ReplaySurface.or02 _ PayloadClass.derived_summary k h =
    (_, refl, refl, (λ e. refl, λ e. refl))
matrix-Chosen ReplaySurface.or02 _ PayloadClass.metadata k h =
    (_, refl, refl, (λ e. refl, λ e. refl))
matrix-Chosen ReplaySurface.or03 _ PayloadClass.derived_summary k h =
    (_, refl, refl, (λ e. refl, λ e. refl))
matrix-Chosen ReplaySurface.or03 _ PayloadClass.metadata k h =
    (_, refl, refl, (λ e. refl, λ e. refl))
matrix-Chosen ReplaySurface.or01 _ _ k h = (_, refl, refl, not_allowed _ refl)
matrix-Chosen ReplaySurface.or02 RecordingLevel.l0 _ k h = (_, refl, refl, not_allowed _ refl)
matrix-Chosen ReplaySurface.or02 RecordingLevel.l1 _ k h = (_, refl, refl, not_allowed _ refl)
matrix-Chosen ReplaySurface.or02 RecordingLevel.l2 _ k h = (_, refl, refl, not_allowed _ refl)
matrix-Chosen ReplaySurface.or03 _ _ k h = (_, refl, refl, not_allowed _ refl)

-- On a known surface and level every known class has a default action, one that the event contracts
-- know; and the class is let through unchanged exactly when it is not sensitive.
pub resolve_default-sensitive :
    (surface : ReplaySurface) (level : RecordingLevel) (class : PayloadClass)
    → (validate_surface surface ≡ ok tt) × (validate_level level ≡ ok tt)
    → is_payload_class class ≡ true
    → (action : RedactionAction) × (resolve_default_redaction_action surface level class
        ≡ ok action)
      × (is_redaction_action action ≡ true)
      × ((action ≡ RedactionAction.allow) ↔ (is_sensitive class ≡ false))
unfolding resolve_default_redaction_action validate_redaction
resolve_default-sensitive surface level class (s, l) h =
    rw (s, l, h) (matrix-Chosen surface level class (s, l) h)

-- The classes that a list of decisions decides about.
abbrev pub classes : List RedactionDecision → List PayloadClass
classes [] = []
classes (d ∷ ds) = d.payload_class ∷ classes ds

abbrev pub Distinct : List PayloadClass → Type 0
Distinct [] = Unit
Distinct (c ∷ cs) = (has_class c cs ≡ false) × Distinct cs

abbrev pub Valid : RedactionDecision → Type 0
Valid d = validate_redaction d ≡ ok tt

-- The decisions cover the tags that were not seen before, each once.
abbrev Covers : (seen tags : List PayloadClass) → List RedactionDecision → Type 0
Covers seen tags ds =
    ((c : PayloadClass) → has_class c (classes ds) ≡ (has_class c tags && not (has_class c seen)))
    × Distinct (classes ds)
    × All Valid ds

seen_alike :
    (a b : PayloadClass) (cs : List PayloadClass)
    → same_class a b ≡ true
    → has_class b cs ≡ has_class a cs
seen_alike a b cs h = ap (λ z. has_class z cs) (sym (same_class-eq a b h))

skip-Covers :
    (seen tags : List PayloadClass) (tag : PayloadClass) (ds : List RedactionDecision)
    → has_class tag seen ≡ true
    → Covers seen tags ds
    → Covers seen (tag ∷ tags) ds
unfolding has_class
skip-Covers seen tags tag ds old (has, distinct, valid) =
    (λ c. ground (arith, has c, seen_alike tag c seen), distinct, valid)

take-Covers :
    (seen tags : List PayloadClass) (d : RedactionDecision) (ds : List RedactionDecision)
    → has_class d.payload_class seen ≡ false
    → Valid d
    → Covers (d.payload_class ∷ seen) tags ds
    → Covers seen (d.payload_class ∷ tags) (d ∷ ds)
unfolding has_class
take-Covers seen tags d ds new ok_d (has, distinct, valid) = (
  λ c. ground (arith, has c, seen_alike d.payload_class c seen),
  (ground (arith, has d.payload_class, same_class_self d.payload_class), distinct),
  (ok_d, valid),
)

abbrev KnownClass : PayloadClass → Type 0
KnownClass c = is_payload_class c ≡ true

abbrev Gives :
    (surface : ReplaySurface) (level : RecordingLevel) (seen tags : List PayloadClass) → Type 0
Gives surface level seen tags =
    (ds : List RedactionDecision) × (default_decisions surface level seen tags ≡ ok ds)
    × Covers seen tags ds

known_Valid :
    (class : PayloadClass) (action : RedactionAction)
    → is_payload_class class ≡ true
    → is_redaction_action action ≡ true
    → Valid (record { payload_class = class; action = action })
unfolding validate_redaction
known_Valid class action c a = rw (c, a) refl

take-Gives :
    (surface : ReplaySurface) (level : RecordingLevel) (seen tags : List PayloadClass)
    (tag : PayloadClass)
    → Known surface level
    → is_payload_class tag ≡ true
    → has_class tag seen ≡ false
    → Gives surface level (tag ∷ seen) tags
    → Gives surface level seen (tag ∷ tags)
unfolding default_decisions
take-Gives surface level seen tags tag k h new (ds, e, covers) =
    let (action, chosen, known, _) = resolve_default-sensitive surface level tag k h in
    let valid = known_Valid tag action h known in
    (
      record { payload_class = tag; action = action } ∷ ds,
      rw (new, chosen, valid, e) refl,
      take-Covers seen tags _ ds new valid covers,
    )

default_decisions-Gives :
    (surface : ReplaySurface) (level : RecordingLevel) (seen tags : List PayloadClass)
    → Known surface level
    → All KnownClass tags
    → Gives surface level seen tags
unfolding default_decisions has_class
default_decisions-Gives surface level seen [] k h = ([], refl, ((λ c. refl), tt, tt))
default_decisions-Gives surface level seen (tag ∷ tags) k (h, hs) =
    elim (Bool-cases (has_class tag seen)) [
      | inl old ↦
          let (ds, e, covers) = default_decisions-Gives surface level seen tags k hs in
          (ds, rw old e, skip-Covers seen tags tag ds old covers)
      | inr new ↦
          take-Gives surface level seen tags tag k h new
            (default_decisions-Gives surface level (tag ∷ seen) tags k hs)
    ]

-- On a known surface and level, the default decisions for any tags that are known and not none at
-- all exist, decide about exactly the classes among the tags, about each once, and are valid.
pub build_default-covers :
    (surface : ReplaySurface) (level : RecordingLevel) (tag : PayloadClass)
    (tags : List PayloadClass)
    → (validate_surface surface ≡ ok tt) × (validate_level level ≡ ok tt)
    → All (λ c. is_payload_class c ≡ true) (tag ∷ tags)
    → (ds : List RedactionDecision) × (build_default_redaction_decisions surface level (tag ∷ tags)
        ≡ ok ds)
      × ((c : PayloadClass) → has_class c (classes ds) ≡ has_class c (tag ∷ tags))
      × Distinct (classes ds)
      × All Valid ds
unfolding build_default_redaction_decisions has_class
build_default-covers surface level tag tags k h =
    let (ds, e, covers) = default_decisions-Gives surface level [] (tag ∷ tags) k h in
    let (has, distinct, valid) = covers in (ds, e, (λ c. ground (arith, has c)), distinct, valid)
