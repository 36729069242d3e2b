-- ===== src/Protocol/Tests.antt =====
-- The failure classes of both sides at concrete HTTP statuses.
use risk_opportunity_manager.Prelude.{pos, ◌≡◌}
use risk_opportunity_manager.Protocol.{classify_http_status, classify_http_failure}
use risk_opportunity_manager.Protocol.Laws.{classify_agree}

classify_agree_example : classify_http_status (pos 503) ≡ classify_http_failure (pos 503)
classify_agree_example = classify_agree (pos 503) (λ e. cc e)
