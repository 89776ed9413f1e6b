-- ===== src/Evidence/Store/Appending.antt =====
-- What a call of `append` does to the store.
use vuln_proof_claw.Common.{
  ℕ, Bool, true, false, ◌≡◌, ◌⊎◌, inl, inr, Option, none, some, List, [], ◌∷◌, ◌++◌, arith, last?,
  lookup, lookup-insert, if◌then◌else◌, string_eq, option_eq, eq_self, is_some, String, Bool-cases,
  ap, ◌∙◌, sym, subst,
}
use vuln_proof_claw.Common.Results.{result_cases, ok, err, >>=-eq-ok}
use vuln_proof_claw.Domain.Errors.{Raises}
use vuln_proof_claw.Evidence.{
  EvidenceMetadata, EvidenceRecord, EvidenceError, Keeps, of_domain, validate_record,
  duplicate_evidence,
}
use vuln_proof_claw.Evidence.HashChain.{Hash, append_to_chain, digest_of}
use vuln_proof_claw.Evidence.Store.{
  EvidenceStore, digest_of_last, for_engagement, get, opened, indexed, append,
}
use vuln_proof_claw.Evidence.Store.Chains.{
  for_engagement-opened, for_engagement-indexed, records-indexed,
}

if_true : {A : Type 0} {b : Bool} {x : A} (y : A) → b ≡ true → (if b then x else y) ≡ x
if_true y h = rw h

module _ (hash : Hash) {Mapping : Type 0}
    (canonical : EvidenceMetadata Mapping → Raises (List ℕ)) where
  validate_record-ok :
      (x : EvidenceRecord Mapping) {r : EvidenceRecord Mapping}
      → of_domain (validate_record x) ≡ ok r
      → r ≡ x
  unfolding validate_record
  validate_record-ok x h = ground arith

  abbrev pub IsMade :
      EvidenceMetadata Mapping → List ℕ → Option String → EvidenceRecord Mapping → Type 0
  IsMade m raw p r =
      (r.metadata ≡ m)
      × (r.raw_content ≡ raw)
      × (r.previous_digest ≡ p)
      × (digest_of hash canonical p m raw ≡ ok r.digest)

  pub append_to_chain-ok :
      (m : EvidenceMetadata Mapping) (raw : List ℕ) (p : Option String) {r : EvidenceRecord Mapping}
      → append_to_chain hash canonical m raw p ≡ ok r
      → IsMade m raw p r
  unfolding append_to_chain
  append_to_chain-ok m raw p {r = r} h =
      let (digest, made, h') = >>=-eq-ok (digest_of hash canonical p m raw) _ h in
      let same = validate_record-ok _ h' in
      (
        ap (λ (x : EvidenceRecord Mapping). x.metadata) same,
        ap (λ (x : EvidenceRecord Mapping). x.raw_content) same,
        ap (λ (x : EvidenceRecord Mapping). x.previous_digest) same,
        made ∙ ap ok (sym (ap (λ (x : EvidenceRecord Mapping). x.digest) same)),
      )

  -- The link that the next record of an engagement has to name.
  abbrev pub tail_of : String → EvidenceStore Mapping → Option String
  tail_of e s = digest_of_last (last? (for_engagement e s))

  -- What an appended record is, and what becomes of the store.
  abbrev pub Extends :
      EvidenceStore Mapping → EvidenceRecord Mapping → EvidenceStore Mapping → Type 0
  Extends s r after =
      (lookup r.metadata.evidence_id s.records ≡ none)
      × (r.previous_digest ≡ tail_of r.metadata.engagement_id s)
      × (digest_of hash canonical r.previous_digest r.metadata r.raw_content ≡ ok r.digest)
      × (after ≡ indexed r (opened r.metadata.engagement_id s))

  -- The three ends of a call: refused as a duplicate, the record added, or an exception.
  abbrev pub Appends :
      EvidenceMetadata Mapping
      → List ℕ
      → EvidenceStore Mapping
      → Keeps (EvidenceRecord Mapping) × EvidenceStore Mapping
      → Type 0
  Appends m raw s out =
      (out ≡ (err duplicate_evidence, s))
      ⊎ (((r : EvidenceRecord Mapping) × (r.metadata ≡ m)
            × (r.raw_content ≡ raw)
            × (out.0 ≡ ok r)
            × Extends s r out.1)
          ⊎ ((e : EvidenceError) × (out ≡ (err e, opened m.engagement_id s))))

  made-Extends :
      (m : EvidenceMetadata Mapping) (raw : List ℕ) (s : EvidenceStore Mapping)
      (r : EvidenceRecord Mapping)
      → lookup m.evidence_id s.records ≡ none
      → IsMade m raw (tail_of m.engagement_id s) r
      → Extends s r (indexed r (opened m.engagement_id s))
  made-Extends m raw s r new (metadata, content, link, digest) = (
    subst (λ (x : EvidenceMetadata Mapping). lookup x.evidence_id s.records ≡ none) (sym metadata)
        new,
    link ∙ ap (λ (x : EvidenceMetadata Mapping). tail_of x.engagement_id s) (sym metadata),
    ap (λ p. digest_of hash canonical p r.metadata r.raw_content) link
        ∙ ap (λ x. digest_of hash canonical (tail_of m.engagement_id s) x r.raw_content) metadata
        ∙ ap (λ x. digest_of hash canonical (tail_of m.engagement_id s) m x) content
        ∙ digest,
    ap (λ (x : EvidenceMetadata Mapping). indexed r (opened x.engagement_id s)) (sym metadata),
  )

  abbrev pub Outcome : Type 0
  Outcome = Keeps (EvidenceRecord Mapping) × EvidenceStore Mapping

  append-made :
      (m : EvidenceMetadata Mapping) (raw : List ℕ) (s : EvidenceStore Mapping)
      (r : EvidenceRecord Mapping)
      → is_some (lookup m.evidence_id s.records) ≡ false
      → append_to_chain hash canonical m raw (tail_of m.engagement_id s) ≡ ok r
      → append hash canonical m raw s ≡ (ok r, indexed r (opened m.engagement_id s))
  unfolding append
  append-made m raw s r new made = rw (new, made)

  pub append-Appends :
      (m : EvidenceMetadata Mapping) (raw : List ℕ) (s : EvidenceStore Mapping)
      → Appends m raw s (append hash canonical m raw s)
  unfolding append
  append-Appends m raw s = elim (Bool-cases (is_some (lookup m.evidence_id s.records))) [
    | inl present ↦ inl (rw present)
    | inr new ↦
        elim (result_cases (append_to_chain hash canonical m raw (tail_of m.engagement_id s))) [
          | inl (r, made) ↦
              let absent : lookup m.evidence_id s.records ≡ none = ground arith in
              let is_made = append_to_chain-ok m raw (tail_of m.engagement_id s) made in
              let extends = made-Extends m raw s r absent is_made in
              let out = append-made m raw s r new made in
              inr (
                inl (
                  r,
                  is_made.0,
                  is_made.1,
                  ap (λ (o : Outcome). o.0) out,
                  (extends.0, extends.1, extends.2, ap (λ (o : Outcome). o.1) out ∙ extends.3),
                ))
          | inr (e, failed) ↦ inr (inr (e, rw (new, failed)))
        ]
  ]

  extended-for_engagement :
      (s : EvidenceStore Mapping) (r : EvidenceRecord Mapping) (after : EvidenceStore Mapping)
      → Extends s r after
      → (get r.metadata.evidence_id after ≡ some r)
        × (for_engagement r.metadata.engagement_id after
            ≡ for_engagement r.metadata.engagement_id s ++ r ∷ [])
  unfolding get
  extended-for_engagement s r after (new, link, digest, made) =
      let e = r.metadata.engagement_id in
      let id = r.metadata.evidence_id in
      let ready = opened e s in
      (
        ap (λ (t : EvidenceStore Mapping). lookup id t.records) made
            ∙ ap (lookup id) (records-indexed hash canonical r ready)
            ∙ lookup-insert id id r ready.records
            ∙ rw (eq_self id),
        ap (for_engagement e) made
            ∙ for_engagement-indexed hash canonical r e ready
            ∙ if_true (for_engagement e ready) (eq_self e)
            ∙ ap (λ rs. rs ++ r ∷ []) (for_engagement-opened hash canonical e e s),
      )

  -- A record that `append` gives back has the given metadata and content, is found by its
  -- identifier, and stands behind the records that its engagement had before.
  pub append-for_engagement :
      (m : EvidenceMetadata Mapping) (raw : List ℕ) (s : EvidenceStore Mapping)
      {r : EvidenceRecord Mapping} {after : EvidenceStore Mapping}
      → append hash canonical m raw s ≡ (ok r, after)
      → (r.metadata ≡ m)
        × (r.raw_content ≡ raw)
        × (get m.evidence_id after ≡ some r)
        × (for_engagement m.engagement_id after ≡ for_engagement m.engagement_id s ++ r ∷ [])
  append-for_engagement m raw s {r} {after} h = elim (append-Appends m raw s) [
    | inl same ↦ cc (same, h)
    | inr (inr (e, same)) ↦ cc (same, h)
    | inr (inl (x, metadata, content, out, extends)) ↦
        let same_record : x ≡ r = cc (out, h) in
        let same_store : (append hash canonical m raw s).1 ≡ after = ap (λ (o : Outcome). o.1) h in
        let facts = extended-for_engagement s x _ extends in
        let held : (get m.evidence_id (append hash canonical m raw s).1 ≡ some x)
            × (for_engagement m.engagement_id (append hash canonical m raw s).1
                ≡ for_engagement m.engagement_id s ++ x ∷ []) =
          subst
            (λ (d : EvidenceMetadata Mapping).
              (get d.evidence_id (append hash canonical m raw s).1 ≡ some x)
              × (for_engagement d.engagement_id (append hash canonical m raw s).1
                  ≡ for_engagement d.engagement_id s ++ x ∷ []))
            metadata facts in
        (
          ap (λ (y : EvidenceRecord Mapping). y.metadata) (sym same_record) ∙ metadata,
          ap (λ (y : EvidenceRecord Mapping). y.raw_content) (sym same_record) ∙ content,
          ap (get m.evidence_id) (sym same_store) ∙ held.0 ∙ ap some same_record,
          ap (for_engagement m.engagement_id) (sym same_store)
              ∙ held.1
              ∙ ap (λ (y : EvidenceRecord Mapping). for_engagement m.engagement_id s ++ y ∷ [])
                  same_record,
        )
  ]
