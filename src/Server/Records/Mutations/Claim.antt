-- ===== src/Server/Records/Mutations/Claim.antt =====
-- Optimistic locking: _check_base_version, _claim_base_version and _claim_existing of sync/mutations.py.
use risk_opportunity_manager.Prelude.{
  ℕ, ◌+◌, ℤ, pos, leb_ℤ, eqb_ℤ, Bool, ◌&&◌, not, Option, none, some, List, if◌then◌else◌, ◌==◌,
  update, count,
}
use risk_opportunity_manager.Protocol.{Entity, assessment, is_scored, same_entity}
use risk_opportunity_manager.Json.{Fields}
use risk_opportunity_manager.Server.Push.{
  base_version_required, version_mismatch, type_mismatch, conflict_error, http_exception,
}
use risk_opportunity_manager.Server.Records.{Row, Records, Env, in_scope, current_server_state}
use risk_opportunity_manager.Server.Records.Mutations.{Try, value, raised, ◌>>=◌, conflict_at}

module _ (env : Env) where
  -- _check_base_version
  unfoldable pub check_base_version : List Row → Entity → Row → Option ℤ → Try ℕ
  check_base_version rows e r none = conflict_at env rows e base_version_required r
  check_base_version rows e r (some b) =
      if not (leb_ℤ (pos 1) b)
      then conflict_at env rows e base_version_required r
      else if not (eqb_ℤ (pos r.version) b)
      then conflict_at env rows e version_mismatch r
      else value r.version

  -- the WHERE of the UPDATE in _claim_base_version
  abbrev pub claims : List Row → Entity → ℕ → ℕ → ℕ → ℕ → Row → Bool
  claims rows e i p u b r = in_scope env rows e i p u r && r.version == b

  abbrev mismatch : {A : Type 0} → ℕ → Option ℤ × Option Fields → Try A
  mismatch i (v, d) = raised (conflict_error version_mismatch (some i) v d)

  -- _claim_base_version
  unfoldable pub claim_base_version : Records → Entity → ℕ → ℕ → ℕ → ℕ → Try Records
  unfolding current_server_state in_scope
  claim_base_version d e i p u b =
      if count (claims d.rows e i p u b) d.rows == 1
      then value (record d {
        rows =
            update (claims d.rows e i p u b)
              (λ r. record r { version = r.version + 1; updated_at = d.now }) d.rows;
      })
      else mismatch i (current_server_state env d e i p u)

  -- _claim_existing, without the old state for the audit
  unfoldable pub claim_existing : Records → Entity → ℕ → ℕ → ℕ → Option ℤ → Row → Try Records
  unfolding check_base_version claim_base_version
  claim_existing d e i p u base r =
      if is_scored e && not (same_entity r.kind e)
      then conflict_at env d.rows e type_mismatch r
      else if same_entity e assessment && not (r.assessor == u)
      then raised (http_exception (pos 403) "Cannot modify another user's assessment")
      else do b ← check_base_version d.rows e r base; claim_base_version d e i p u b
