-- ===== src/EventAbi/SchemaVersion.antt =====
-- api/eventabi/types.go: the pattern schemaVersionRE, `^v[0-9]+\.[0-9]+(?:\.[0-9]+)?$`, as an automaton; and
-- the pattern of api/controlplane/types.go that makes the first letter optional.
use Prim.Native.Char.{code}
use realtime_speech_pipeline.Base.{
  ℕ, ◌≡◌, refl, String, Bool, true, false, ◌&&◌, ◌||◌, if◌then◌else◌, leb, eqb,
}

pub data State : Type 0 where
  start prefix major dot minor second_dot patch dead : State

-- `digit`, `point` and `letter_v` say what the next character is.
abbrev next : State → (digit point letter_v : Bool) → State
next State.start _ _ v = if v then State.prefix else State.dead
next State.prefix d _ _ = if d then State.major else State.dead
next State.major d p _ = if d then State.major else if p then State.dot else State.dead
next State.dot d _ _ = if d then State.minor else State.dead
next State.minor d p _ = if d then State.minor else if p then State.second_dot else State.dead
next State.second_dot d _ _ = if d then State.patch else State.dead
next State.patch d _ _ = if d then State.patch else State.dead
next State.dead _ _ _ = State.dead

abbrev accepts : State → Bool
accepts State.minor = true
accepts State.patch = true
accepts _ = false

abbrev is_digit : ℕ → Bool
is_digit c = leb b'0' c && leb c b'9'

run : State → String → Bool
run q String.[] = accepts q
run q (String.◌∷◌ c s) = run (next q (is_digit (code c)) (eqb (code c) b'.') (eqb (code c) b'v')) s

unfoldable pub matches_schema_version : String → Bool
unfolding run
matches_schema_version s = run State.start s

-- `^v?[0-9]+\.[0-9]+(?:\.[0-9]+)?$`
unfoldable pub matches_rule_version : String → Bool
unfolding run
matches_rule_version s = run State.start s || run State.prefix s

rule_versions :
    (matches_rule_version "v1.0.0" ≡ true)
    × (matches_rule_version "1.0" ≡ true)
    × (matches_rule_version "vv1.0" ≡ false)
unfolding matches_rule_version
rule_versions = (refl, refl, refl)

versions :
    (matches_schema_version "v1.0" ≡ true)
    × (matches_schema_version "v12.3.45" ≡ true)
    × (matches_schema_version "1.0" ≡ false)
    × (matches_schema_version "v1" ≡ false)
    × (matches_schema_version "v1.0." ≡ false)
unfolding matches_schema_version
versions = (refl, refl, refl, refl, refl)
