-- ===== src/Manifest/Trusted.antt =====
-- internal/manifestverify/verify.go, `Verify`: what an accepted manifest has passed.
use villa_straylight.Base.{
  ◌≡◌, ◌≢◌, refl, sym, ◌∙◌, ap, subst, ℕ, ◌≤◌, Bool, true, false, Option, none, some, List, [], ◌∷◌,
  Result, ok, err, arith, Bool-cases, inl, inr, ◌⊎◌, ltb, not-ltb→le, is_blank, length, ◌==◌,
  ok-injective, ==_iff,
}
use villa_straylight.Manifest.{
  Document, no_document, Env, ParseError, check_schema, schema_version, signature_verifies, Problem,
  check_allowlist,
}
use villa_straylight.Manifest.Verify.{
  Outcome, absent, refused, accepted, Verdict, Input, decline, after_problems, after_expiry,
  after_parse, verify,
}
use villa_straylight.Manifest.Allowlist.{IsWithinAllowlist, check_allowlist-IsWithin}

-- A manifest that may be acted on.
pub record IsTrusted (env : Env) (i : Input) (v : Verdict) : Type 0 where
  pub key_length : length i.public_key ≡ 32
  pub signed : env.ed25519_verify i.public_key i.data_bytes i.signature ≡ true
  pub decoded : env.decode i.data_bytes ≡ ok v.doc
  pub format : v.doc.schema_version ≡ schema_version
  pub no_downgrade : i.serial_floor ≤ v.doc.serial
  pub expiry : ℕ
  pub dated : env.parse_time v.doc.valid_until ≡ some expiry
  pub current : i.now ≤ expiry
  pub within : IsWithinAllowlist env v.doc

module _ (env : Env) (i : Input) where
  -- What the checks after the signature say of the document that they accept.
  record IsAccepted (v : Verdict) (doc : Document) : Type 0 where
    is_doc : v.doc ≡ doc
    serial : i.serial_floor ≤ doc.serial
    expiry : ℕ
    dated : env.parse_time doc.valid_until ≡ some expiry
    current : i.now ≤ expiry
    no_problems : check_allowlist env doc ≡ []

  after_problems-accepts :
      (doc : Document) (ps : List Problem)
      → (after_problems env i doc ps).outcome ≡ accepted
      → ((after_problems env i doc ps).doc ≡ doc) × (ps ≡ [])
  unfolding after_problems decline
  after_problems-accepts doc [] h = (refl, refl)
  after_problems-accepts doc (p ∷ ps) h = absurd (ground (arith, h))

  after_expiry-accepts :
      (doc : Document) (b : Bool) (t : Option ℕ)
      → env.parse_time doc.valid_until ≡ t
      → i.serial_floor ≤ doc.serial
      → (after_expiry env i doc b t).outcome ≡ accepted
      → IsAccepted (after_expiry env i doc b t) doc
  unfolding after_expiry decline
  after_expiry-accepts doc true t is_t le = λ h. absurd (ground (arith, h))
  after_expiry-accepts doc false none is_t le = λ h. absurd (ground (arith, h))
  after_expiry-accepts doc false (some t) is_t le = elim (Bool-cases (ltb t i.now)) [
    | inl e ↦ rw (e) (λ h. absurd (ground (arith, h)))
    | inr e ↦ rw (e) (λ h.
        let (is_doc, none_left) = after_problems-accepts doc (check_allowlist env doc) h in
        record {
          is_doc = is_doc;
          serial = le;
          expiry = t;
          dated = is_t;
          current = not-ltb→le t i.now e;
          no_problems = none_left;
        })
  ]

  after_parse-accepts :
      (x : Result ParseError Document)
      → (after_parse env i x).outcome ≡ accepted
      → (doc : Document) × (x ≡ ok doc) × IsAccepted (after_parse env i x) doc
  unfolding after_parse decline
  after_parse-accepts (err e) = λ h. absurd (ground (arith, h))
  after_parse-accepts (ok doc) = elim (Bool-cases (ltb doc.serial i.serial_floor)) [
    | inl e ↦ rw (e) (λ h. absurd (ground (arith, h)))
    | inr e ↦ rw (e) (λ h. (
      doc,
      refl,
      after_expiry-accepts doc (is_blank doc.valid_until) (env.parse_time doc.valid_until) refl
          (not-ltb→le doc.serial i.serial_floor e) h,
    ))
  ]

  check_schema-ok :
      (x : Result ℕ Document) (doc : Document)
      → check_schema x ≡ ok doc
      → (x ≡ ok doc) × (doc.schema_version ≡ schema_version)
  unfolding check_schema
  check_schema-ok (err e) doc = λ h. absurd (ground (arith, h))
  check_schema-ok (ok d) doc = elim (Bool-cases (d.schema_version == schema_version)) [
    | inl e ↦ rw (e) (λ h. (
      ap ok (ok-injective h),
      subst (λ x. x.schema_version ≡ schema_version) (ok-injective h)
          ((==_iff d.schema_version schema_version).0 e),
    ))
    | inr e ↦ rw (e) (λ h. absurd (ground (arith, h)))
  ]

  signature-parts :
      signature_verifies env i.public_key i.data_bytes i.signature ≡ true
      → (length i.public_key ≡ 32)
        × (env.ed25519_verify i.public_key i.data_bytes i.signature ≡ true)
  unfolding signature_verifies
  signature-parts h = ground (arith, h)

  accepted-IsTrusted :
      (v : Verdict) (doc : Document)
      → (length i.public_key ≡ 32)
        × (env.ed25519_verify i.public_key i.data_bytes i.signature ≡ true)
      → (env.decode i.data_bytes ≡ ok doc) × (doc.schema_version ≡ schema_version)
      → IsAccepted v doc
      → IsTrusted env i v
  accepted-IsTrusted v doc signature parsed a = record {
    key_length = signature.0;
    signed = signature.1;
    decoded = parsed.0 ∙ ap ok (sym a.is_doc);
    format = ap (λ z. z.schema_version) a.is_doc ∙ parsed.1;
    no_downgrade = subst (λ z. i.serial_floor ≤ z.serial) (sym a.is_doc) a.serial;
    expiry = a.expiry;
    dated = ap (λ z. env.parse_time z.valid_until) a.is_doc ∙ a.dated;
    current = a.current;
    within =
        subst (IsWithinAllowlist env) (sym a.is_doc)
          (check_allowlist-IsWithin env doc a.no_problems);
  }

  verify-accepted : (verify env i).outcome ≡ accepted → IsTrusted env i (verify env i)
  unfolding verify decline
  verify-accepted h =
      let x = check_schema (env.decode i.data_bytes) in
      let signed : signature_verifies env i.public_key i.data_bytes i.signature ≡ true =
        ground (arith, h) in
      let is_parsed : verify env i ≡ after_parse env i x = ground (arith, h) in
      let (doc, is_ok, a) = after_parse-accepts x (ap (λ v. v.outcome) (sym is_parsed) ∙ h) in
      subst (IsTrusted env i) (sym is_parsed) (
        accepted-IsTrusted (after_parse env i x) doc (signature-parts signed)
          (check_schema-ok (env.decode i.data_bytes) doc is_ok) a)

  after_expiry-doc :
      (doc : Document) (b : Bool) (t : Option ℕ)
      → ((after_expiry env i doc b t).outcome ≡ accepted)
        ⊎ ((after_expiry env i doc b t).doc ≡ no_document)
  unfolding after_expiry decline after_problems
  after_expiry-doc doc true t = inr refl
  after_expiry-doc doc false none = inr refl
  after_expiry-doc doc false (some t) = ground arith

  after_parse-doc :
      (x : Result ParseError Document)
      → ((after_parse env i x).outcome ≡ accepted) ⊎ ((after_parse env i x).doc ≡ no_document)
  unfolding after_parse decline
  after_parse-doc (err e) = inr refl
  after_parse-doc (ok doc) =
      ground
        (arith, after_expiry-doc doc (is_blank doc.valid_until) (env.parse_time doc.valid_until))

  verify-no_document : (verify env i).outcome ≢ accepted → (verify env i).doc ≡ no_document
  unfolding verify decline
  verify-no_document h = ground (arith, h, after_parse-doc (check_schema (env.decode i.data_bytes)))

  accepted_or_not : (o : Outcome) → (o ≡ accepted) ⊎ (o ≢ accepted)
  accepted_or_not accepted = inl refl
  accepted_or_not absent = inr (λ e. ground (arith, e))
  accepted_or_not refused = inr (λ e. ground (arith, e))

  -- A manifest is accepted only if the whole of it, as fetched, is signed by a key of the right
  -- length, decodes to the document of the verdict, is of the known format, is no older than the
  -- floor, has an expiry that has not passed, and keeps to the allowlist: each component is one of
  -- the table, with its registry and its shape, a pin, a checksum where it is an asset, and an image
  -- of the registry where it is none. A manifest that is not accepted hands no document on.
  pub verify-IsTrusted :
      ((verify env i).outcome ≡ accepted) × IsTrusted env i (verify env i)
      ⊎ ((verify env i).outcome ≢ accepted) × ((verify env i).doc ≡ no_document)
  verify-IsTrusted = elim (accepted_or_not (verify env i).outcome) [
    | inl e ↦ inl (e, verify-accepted e)
    | inr n ↦ inr (n, verify-no_document n)
  ]
