-- ===== src/PlanResolver/Seeds.antt =====
-- The seeds and digests of internal/runtime/determinism/service.go and
-- internal/runtime/planresolver/resolver.go.
use realtime_speech_pipeline.Base.{
  ◌-◌, ℕ, ◌^◌, ◌<◌, ◌≡◌, ◌≢◌, refl, String, true, false, List, [], ◌∷◌, ok, err, arith,
}
use realtime_speech_pipeline.Base.Lists.{length, All}
use realtime_speech_pipeline.Base.Int.{ℤ, pos, negsuc, is_negative, wrap64, sub64}
use realtime_speech_pipeline.Base.Members.{has}
use realtime_speech_pipeline.Base.Text.{is_empty, concat, decimal_int}
use realtime_speech_pipeline.EventAbi.SchemaVersion.{matches_rule_version}
use realtime_speech_pipeline.ControlPlane.TurnPlan.{
  validate_determinism, validate_nondeterministic_input, validate_inputs, validate_distinct,
}
use realtime_speech_pipeline.PlanResolver.{
  big_endian, absolute64, derive_seed, context_of, issue_context,
}

abbrev pub Byte : ℕ → Type 0
Byte b = b < 256

-- What the program relies on of `sha256.Sum256`: 32 bytes.
pub record Digests (sum256 : String → List ℕ) : Type 0 where
  pub size : (s : String) → length (sum256 s) ≡ 32
  pub bytes : (s : String) → All Byte (sum256 s)

-- The absolute value of a 64-bit word, read as an int64, is negative for one word only.
pub absolute64-word :
    (word : ℕ)
    → word < 2 ^ 64
    → word ≢ 2 ^ 63
    → is_negative (absolute64 (wrap64 (pos word))) ≡ false
unfolding absolute64 wrap64 sub64
absolute64-word word b d = ground arith

pub absolute64-least : absolute64 (wrap64 (pos (2 ^ 63))) ≡ negsuc (2 ^ 63 - 1)
unfolding absolute64 wrap64 sub64
absolute64-least = refl

-- The word that the seed is made of.
abbrev pub word_of : List ℕ → ℕ
word_of bytes = big_endian 8 0 bytes

word-bound : (bytes : List ℕ) → All Byte bytes → length bytes ≡ 32 → word_of bytes < 2 ^ 64
unfolding big_endian
word-bound (a ∷ b ∷ c ∷ d ∷ e ∷ f ∷ g ∷ h ∷ rest) (pa, (pb, (pc, (pd, (pe, (pf, (pg, (ph, _))))))))
      n =
    omega arith
word-bound (a ∷ b ∷ c ∷ d ∷ e ∷ f ∷ g ∷ []) p n = omega arith
word-bound (a ∷ b ∷ c ∷ d ∷ e ∷ f ∷ []) p n = omega arith
word-bound (a ∷ b ∷ c ∷ d ∷ e ∷ []) p n = omega arith
word-bound (a ∷ b ∷ c ∷ d ∷ []) p n = omega arith
word-bound (a ∷ b ∷ c ∷ []) p n = omega arith
word-bound (a ∷ b ∷ []) p n = omega arith
word-bound (a ∷ []) p n = omega arith
word-bound [] p n = omega arith

-- The word of the digest that the seed for a plan and a sequence is read from.
abbrev pub seed_word : (sum256 : String → List ℕ) (plan_hash : String) (sequence : ℤ) → ℕ
seed_word sum256 plan_hash sequence =
    word_of (sum256 (concat plan_hash (concat "|" (decimal_int sequence))))

validated :
    (sum256 : String → List ℕ) (plan_hash : String) (sequence : ℤ)
    → is_empty plan_hash ≡ false
    → is_negative (derive_seed sum256 plan_hash sequence) ≡ false
    → issue_context sum256 plan_hash sequence ≡ ok (context_of sum256 plan_hash sequence)
unfolding issue_context context_of validate_determinism validate_nondeterministic_input
    validate_inputs validate_distinct has matches_rule_version
validated sum256 plan_hash sequence h n = rw (h, n) refl

refused :
    (sum256 : String → List ℕ) (plan_hash : String) (sequence : ℤ)
    → is_empty plan_hash ≡ false
    → is_negative (derive_seed sum256 plan_hash sequence) ≡ true
    → issue_context sum256 plan_hash sequence ≡ err "determinism.seed must be >=0"
unfolding issue_context context_of validate_determinism
refused sum256 plan_hash sequence h n = rw (h, n) refl

-- For a plan hash that is not empty, and a digest of 32 bytes, a context is issued, as written and
-- accepted by its validation, exactly when the first eight bytes of the digest are not 2^63; for that
-- one word the negated seed overflows, stays negative, and the context is refused.
pub issue_context-seed :
    (sum256 : String → List ℕ) (plan_hash : String) (sequence : ℤ)
    → Digests sum256
    → is_empty plan_hash ≡ false
    → (seed_word sum256 plan_hash sequence ≢ 2 ^ 63
        → issue_context sum256 plan_hash sequence ≡ ok (context_of sum256 plan_hash sequence))
      × (seed_word sum256 plan_hash sequence ≡ 2 ^ 63
          → issue_context sum256 plan_hash sequence ≡ err "determinism.seed must be >=0")
unfolding derive_seed
issue_context-seed sum256 plan_hash sequence d h = (
  λ n.
      validated sum256 plan_hash sequence h
        (absolute64-word _ (word-bound _ (d.bytes _) (d.size _)) n),
  λ e. refused sum256 plan_hash sequence h (rw (e, absolute64-least) refl),
)
