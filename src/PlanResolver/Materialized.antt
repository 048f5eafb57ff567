-- ===== src/PlanResolver/Materialized.antt =====
-- When internal/runtime/planresolver/resolver.go materializes a plan.
use realtime_speech_pipeline.Base.{
  ℕ, ◌^◌, ◌≡◌, ◌≢◌, ◌↔◌, refl, String, true, false, not, ◌||◌, List, [], ok, ◌>>◌, arith, sym, ap,
  ◌∙◌, >>=-pass, >>-pass, refuse_if->>-pass, >>=-eq-ok, >>-eq-ok, refuse_if->>-eq-ok,
}
use realtime_speech_pipeline.Base.Lists.{All}
use realtime_speech_pipeline.Base.Members.{Nodup}
use realtime_speech_pipeline.Base.Int.{ℤ, is_negative}
use realtime_speech_pipeline.Base.Text.{is_empty, fallback, is_empty-fallback}
use realtime_speech_pipeline.ControlPlane.TurnPlan.{
  ResolvedTurnPlan, Determinism, validate_plan, validate_provenance, validate_distinct, not_in,
  adaptive_actions, items_of, hex_digits, validate_determinism,
}
use realtime_speech_pipeline.ControlPlane.TurnPlan.Accepted.{Passes, validate_distinct-Nodup}
use realtime_speech_pipeline.PlanResolver.{
  Input, resolve, freeze, materialize, with_defaults, hash_of, hash_plan_identity, context_of,
  issue_context,
}
use realtime_speech_pipeline.PlanResolver.Seeds.{Digests, seed_word, issue_context-seed}
use realtime_speech_pipeline.PlanResolver.Frozen.{
  hex_encode-hex, ok_injective, open_checks, validate_plan-open,
}

-- Whatever Resolve returns was accepted by the validation of plans.
pub resolve-valid :
    (sum256 : String → List ℕ) (req : Input) (plan : ResolvedTurnPlan)
    → resolve sum256 req ≡ ok plan
    → validate_plan plan ≡ ok tt
unfolding resolve freeze
resolve-valid sum256 req plan h =
    let full : Input = with_defaults req in
    let (_, h1) = refuse_if->>-eq-ok req.fail_materialization _ _ h in
    let (_, h2) =
      refuse_if->>-eq-ok (is_empty req.turn_id || is_empty req.pipeline_version) _ _ h1 in
    let (context, _, h3) =
      >>=-eq-ok (issue_context sum256 (hash_of sum256 full) req.authority_epoch) _ h2 in
    let (valid, same) =
      >>-eq-ok (validate_plan (materialize full (hash_of sum256 full) context)) _ h3 in
    rw (ok_injective _ _ same) valid

-- What a request must be for its plan to be frozen. `actions` are the adaptive actions it allows.
pub record IsMaterializable (sum256 : String → List ℕ) (req : Input) : Type 0 where
  pub wanted : req.fail_materialization ≡ false
  pub has_turn : is_empty req.turn_id ≡ false
  pub has_version : is_empty req.pipeline_version ≡ false
  pub has_epoch : is_negative req.authority_epoch ≡ false
  pub known_actions : All (Passes (not_in adaptive_actions)) (items_of req.allowed_adaptive_actions)
  pub distinct_actions : Nodup (items_of req.allowed_adaptive_actions)
  pub has_snapshots : validate_provenance req.snapshot_provenance ≡ ok tt
  pub seeded : seed_word sum256 (hash_of sum256 (with_defaults req)) req.authority_epoch ≢ 2 ^ 63

abbrev pub frozen : (sum256 : String → List ℕ) → Input → ResolvedTurnPlan
frozen sum256 req =
    let hash = hash_of sum256 req in
    materialize req hash (context_of sum256 hash req.authority_epoch)

module _ (sum256 : String → List ℕ) (digests : Digests sum256) where
  hash_plan_identity-hex :
      (t v g p : String) (e : ℤ) → hex_digits 64 (hash_plan_identity sum256 t v g p e) ≡ true
  unfolding hash_plan_identity
  hash_plan_identity-hex t v g p e = hex_encode-hex 32 _ (digests.size _)

  not_empty_of_hex : (s : String) → hex_digits 64 s ≡ true → is_empty s ≡ false
  unfolding hex_digits
  not_empty_of_hex String.[] h = cc
  not_empty_of_hex (String.◌∷◌ c s) h = refl

  hash_given : (req : Input) → is_empty (hash_of sum256 req) ≡ false
  hash_given req = not_empty_of_hex _ (hash_plan_identity-hex _ _ _ _ _)

  valid_context :
      (hash : String) (e : ℤ)
      → issue_context sum256 hash e ≡ ok (context_of sum256 hash e)
      → validate_determinism (context_of sum256 hash e) ≡ ok tt
  unfolding issue_context
  valid_context hash e h =
      let (_, later) = refuse_if->>-eq-ok (is_empty hash) _ _ h in
      (>>-eq-ok (validate_determinism (context_of sum256 hash e)) _ later).0

  abbrev hash_for : Input → String
  hash_for req = hash_of sum256 req

  abbrev context_for : Input → Determinism
  context_for req = context_of sum256 (hash_for req) req.authority_epoch

  -- The checks that the content of a frozen plan can fail.
  abbrev Sound : Input → Type 0
  Sound req =
      (is_empty req.turn_id ≡ false)
      × (is_empty req.pipeline_version ≡ false)
      × (is_negative req.authority_epoch ≡ false)
      × (validate_distinct (not_in adaptive_actions) "invalid allowed adaptive action: %s"
            "duplicate adaptive action: %s" [] (items_of req.allowed_adaptive_actions)
          ≡ ok tt)
      × (validate_provenance req.snapshot_provenance ≡ ok tt)

  plan-valid :
      (req : Input)
      → Sound (with_defaults req)
      → validate_determinism (context_for (with_defaults req)) ≡ ok tt
      → validate_plan (frozen sum256 (with_defaults req)) ≡ ok tt
  unfolding open_checks materialize
  plan-valid req (t, v, e, a, p) d =
      validate_plan-open (with_defaults req) (hash_for (with_defaults req))
        (context_for (with_defaults req))
      ∙ rw
          (
            t,
            v,
            is_empty-fallback req.graph_definition_ref "graph/default" refl,
            is_empty-fallback req.execution_profile "simple" refl,
            hash_plan_identity-hex req.turn_id req.pipeline_version
                (fallback req.graph_definition_ref "graph/default")
                (fallback req.execution_profile "simple") req.authority_epoch,
            e,
            a,
            p,
          )
          d

  plan-Sound :
      (req : Input)
      → validate_plan (frozen sum256 (with_defaults req)) ≡ ok tt
      → Sound (with_defaults req)
  unfolding open_checks materialize
  plan-Sound req h =
      let opened : open_checks (frozen sum256 (with_defaults req)) ≡ ok tt =
        sym (
          validate_plan-open (with_defaults req) (hash_for (with_defaults req))
            (context_for (with_defaults req)))
        ∙ h in
      let (ids, h1) =
        refuse_if->>-eq-ok
          (is_empty req.turn_id
            || is_empty req.pipeline_version
            || is_empty (fallback req.graph_definition_ref "graph/default")
            || is_empty (fallback req.execution_profile "simple"))
          _ _ opened in
      let (_, h2) =
        refuse_if->>-eq-ok (not (hex_digits 64 (hash_for (with_defaults req)))) _ _ h1 in
      let (epoch, h3) = refuse_if->>-eq-ok (is_negative req.authority_epoch) _ _ h2 in
      let (actions, h4) =
        >>-eq-ok
          (validate_distinct (not_in adaptive_actions) "invalid allowed adaptive action: %s"
            "duplicate adaptive action: %s" [] (items_of req.allowed_adaptive_actions))
          _ h3 in
      let (snapshots, _) = >>-eq-ok (validate_provenance req.snapshot_provenance) _ h4 in
      let t : is_empty req.turn_id ≡ false = ground (arith, ids) in
      let v : is_empty req.pipeline_version ≡ false = ground (arith, ids) in
      (t, v, epoch, actions, snapshots)

  freeze_complete :
      (req : Input)
      → Sound (with_defaults req)
      → issue_context sum256 (hash_for (with_defaults req)) req.authority_epoch
        ≡ ok (context_for (with_defaults req))
      → freeze sum256 (with_defaults req) ≡ ok (frozen sum256 (with_defaults req))
  unfolding freeze
  freeze_complete req s issued =
      >>=-pass _ _ _ issued ∙ >>-pass _ _ (plan-valid req s (valid_context _ _ issued))

  resolve_complete :
      (req : Input)
      → IsMaterializable sum256 req
      → resolve sum256 req ≡ ok (frozen sum256 (with_defaults req))
  unfolding resolve
  resolve_complete req m =
      let issued =
        (issue_context-seed sum256 (hash_for (with_defaults req)) req.authority_epoch digests
            (hash_given (with_defaults req))).0
          m.seeded in
      let actions =
        (validate_distinct-Nodup (not_in adaptive_actions) _ _ _).1
          (m.known_actions, m.distinct_actions) in
      refuse_if->>-pass _ _ _ m.wanted
      ∙ refuse_if->>-pass _ _ _ (ground (arith, m.has_turn, m.has_version))
      ∙ freeze_complete req (m.has_turn, m.has_version, m.has_epoch, actions, m.has_snapshots)
          issued

  issued_as_written :
      (hash : String) (e : ℤ) (d : Determinism)
      → issue_context sum256 hash e ≡ ok d
      → issue_context sum256 hash e ≡ ok (context_of sum256 hash e)
  unfolding issue_context
  issued_as_written hash e d h =
      let (given, later) = refuse_if->>-eq-ok (is_empty hash) _ _ h in
      let (valid, _) = >>-eq-ok (validate_determinism (context_of sum256 hash e)) _ later in
      refuse_if->>-pass _ _ _ given ∙ >>-pass _ _ valid

  not_least :
      (req : Input)
      → issue_context sum256 (hash_for (with_defaults req)) req.authority_epoch
        ≡ ok (context_for (with_defaults req))
      → seed_word sum256 (hash_for (with_defaults req)) req.authority_epoch ≢ 2 ^ 63
  not_least req issued e =
      let refused =
        (issue_context-seed sum256 (hash_for (with_defaults req)) req.authority_epoch digests
            (hash_given (with_defaults req))).1
          e in
      cc

  -- What Resolve returned is the frozen plan, and what it was returned for.
  resolve_sound :
      (req : Input) (plan : ResolvedTurnPlan)
      → resolve sum256 req ≡ ok plan
      → IsMaterializable sum256 req × (plan ≡ frozen sum256 (with_defaults req))
  unfolding resolve freeze
  resolve_sound req plan h =
      let (wanted, h1) = refuse_if->>-eq-ok req.fail_materialization _ _ h in
      let (_, h2) =
        refuse_if->>-eq-ok (is_empty req.turn_id || is_empty req.pipeline_version) _ _ h1 in
      let (context, got, _) =
        >>=-eq-ok (issue_context sum256 (hash_for (with_defaults req)) req.authority_epoch) _ h2 in
      let issued = issued_as_written _ _ _ got in
      let h3 : (validate_plan (frozen sum256 (with_defaults req))
            >> ok (frozen sum256 (with_defaults req)))
          ≡ ok plan =
        sym (>>=-pass _ _ _ issued) ∙ h2 in
      let (valid, same) = >>-eq-ok (validate_plan (frozen sum256 (with_defaults req))) _ h3 in
      let (t, v, e, actions, snapshots) = plan-Sound req valid in
      let (known, distinct) = (validate_distinct-Nodup (not_in adaptive_actions) _ _ _).0 actions in
      (
        record {
          wanted = wanted;
          has_turn = t;
          has_version = v;
          has_epoch = e;
          known_actions = known;
          distinct_actions = distinct;
          has_snapshots = snapshots;
          seeded = not_least req issued;
        },
        ok_injective _ _ same,
      )

-- With a digest of 32 bytes, Resolve returns a plan exactly for a request that is not told to fail, that
-- names its turn and its version, whose epoch is not negative, whose adaptive actions are known and none
-- of them twice, whose six snapshots are given, and whose seed word is not 2^63; and the plan is then the
-- frozen literal over the defaults, its hash being that of its identity.
pub resolve-IsMaterializable :
    (sum256 : String → List ℕ) (req : Input) (plan : ResolvedTurnPlan)
    → Digests sum256
    → (resolve sum256 req ≡ ok plan)
      ↔ (IsMaterializable sum256 req × (plan ≡ frozen sum256 (with_defaults req)))
resolve-IsMaterializable sum256 req plan digests = (
  resolve_sound sum256 digests req plan,
  λ (m, same). resolve_complete sum256 digests req m ∙ ap ok (sym same),
)
