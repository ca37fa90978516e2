-- ===== src/Manifest/Verify.antt =====
-- internal/manifestverify/verify.go: `Verify`.
use villa_straylight.Base.{
  ℕ, String, Bool, true, false, Option, none, some, List, [], ◌∷◌, Result, ok, err, ltb, is_blank,
  is_empty, if◌then◌else◌,
}
use villa_straylight.Manifest.{
  Document, no_document, Env, ParseError, check_schema, signature_verifies, Problem,
  check_allowlist,
}

pub data Outcome : Type 0 where
  accepted absent refused : Outcome

pub data Reason : Type 0 where
  no_reason not_published expired bad_signature no_key malformed downgrade allowlist : Reason

pub data Message : Type 0 where
  no_manifest no_verification_key no_signature signature_fails : Message
  unreadable : ParseError → Message
  older_than : ℕ → ℕ → Message
  expiry_missing : Message
  expiry_unreadable : String → Message
  expired_on : ℕ → Message
  oversteps : List Problem → Message
  accepts : ℕ → String → Message

pub record Verdict : Type 0 where
  pub outcome : Outcome
  pub reason : Reason
  pub message : Message
  pub doc : Document

pub record Input : Type 0 where
  pub data_bytes : List ℕ
  pub signature : List ℕ
  pub public_key : List ℕ
  pub serial_floor : ℕ
  pub now : ℕ

unfoldable pub decline : Outcome → Reason → Message → Verdict
decline o r m = record { outcome = o; reason = r; message = m; doc = no_document }

module _ (env : Env) (i : Input) where
  unfoldable pub after_problems : Document → List Problem → Verdict
  after_problems doc (p ∷ problems) = decline refused allowlist (oversteps (p ∷ problems))
  after_problems doc [] = record {
    outcome = accepted;
    reason = no_reason;
    message = accepts doc.serial doc.valid_until;
    doc = doc;
  }

  -- `isExpired`, by whether the text is blank and by the time that it parses to.
  unfoldable pub after_expiry : Document → Bool → Option ℕ → Verdict
  after_expiry doc true t = decline refused malformed expiry_missing
  after_expiry doc false none = decline refused malformed (expiry_unreadable doc.valid_until)
  after_expiry doc false (some t) =
      if ltb t i.now
      then decline absent expired (expired_on t)
      else after_problems doc (check_allowlist env doc)

  unfoldable pub after_parse : Result ParseError Document → Verdict
  after_parse (err e) = decline refused malformed (unreadable e)
  after_parse (ok doc) =
      if ltb doc.serial i.serial_floor
      then decline refused downgrade (older_than doc.serial i.serial_floor)
      else after_expiry doc (is_blank doc.valid_until) (env.parse_time doc.valid_until)

  unfoldable pub verify : Verdict
  verify =
      if is_empty i.data_bytes
      then decline absent not_published no_manifest
      else if is_empty i.public_key
      then decline refused no_key no_verification_key
      else if is_empty i.signature
      then decline refused bad_signature no_signature
      else if signature_verifies env i.public_key i.data_bytes i.signature
      then after_parse (check_schema (env.decode i.data_bytes))
      else decline refused bad_signature signature_fails
