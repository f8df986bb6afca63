-- ===== src/Messages/Tests.antt =====
-- Messages of src/shared/publicErrors.ts.
use nodel_mcp.Base.{◌≡◌, refl, codes}
use nodel_mcp.Messages.{sanitize_sensitive_message}

bearer_goes :
    sanitize_sensitive_message (codes "401 for BEARER abc.def, retry")
    ≡ codes "401 for Bearer [redacted], retry"
unfolding sanitize_sensitive_message
bearer_goes = refl

secrets_go :
    sanitize_sensitive_message (codes "Token = 'x1'; secret:  y2  z")
    ≡ codes "Token = [redacted]; secret: [redacted] z"
unfolding sanitize_sensitive_message
secrets_go = refl

url_goes :
    sanitize_sensitive_message (codes "GET https://u:p@h/n?x=1 failed")
    ≡ codes "GET https://[redacted]@h/n?x=1 failed"
unfolding sanitize_sensitive_message
url_goes = refl
