-- ===== src/ControlPlane.antt =====
-- api/controlplane/types.go: the decision and turn artifacts of the control plane.
pub mod Outcome
pub mod Turn
pub mod EdgePolicy
pub mod TurnPlan
