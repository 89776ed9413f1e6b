-- ===== src/Evidence/HashChain/Tampering.antt =====
-- Two chains that end in one digest.
use vuln_proof_claw.Common.{
  ℕ, true, ◌≡◌, ◌≢◌, refl, ◌⊎◌, inl, inr, Option, none, some, List, [], ◌∷◌, arith, length, String,
  Bool-cases, ap, ◌∙◌, sym, subst, codes_beq, codes_beq_iff, is_sha256,
}
use vuln_proof_claw.Common.Results.{ok, err, >>=-eq-ok}
use vuln_proof_claw.Domain.Errors.{Raises}
use vuln_proof_claw.Evidence.{EvidenceMetadata, EvidenceRecord, of_domain, has_form}
use vuln_proof_claw.Evidence.HashChain.{
  Hash, digest_of, compute_digest, framed, previous_bytes, genesis_digest,
}
use vuln_proof_claw.Evidence.HashChain.Framing.{framed_inj, same_digest}
use vuln_proof_claw.Evidence.HashChain.Chains.{IsLinked, IsChain}

of_domain-ok : {A : Type 0} (m : Raises A) {a : A} → of_domain m ≡ ok a → m ≡ ok a
of_domain-ok (ok a) h = ground arith
of_domain-ok (err e) h = cc

module _ (hash : Hash) {Mapping : Type 0}
    (canonical : EvidenceMetadata Mapping → Raises (List ℕ)) where
  -- The bytes that the digest of a record is taken of.
  abbrev HasPayload : EvidenceRecord Mapping → List ℕ → Type 0
  HasPayload r x =
      (encoded : List ℕ) × (canonical r.metadata ≡ ok encoded)
      × (framed r.previous_digest encoded r.raw_content ≡ ok x)

  -- The digests of two records agree although the bytes that they are taken of do not.
  abbrev pub Collides : EvidenceRecord Mapping → EvidenceRecord Mapping → Type 0
  Collides r s =
      (x : List ℕ) × (y : List ℕ) × HasPayload r x
      × HasPayload s y
      × (x ≢ y)
      × (hash.sha256 x ≡ hash.sha256 y)

  abbrev pub HasCollision : List (EvidenceRecord Mapping) → List (EvidenceRecord Mapping) → Type 0
  HasCollision (r ∷ rs) (s ∷ ss) = Collides r s ⊎ HasCollision rs ss
  HasCollision _ _ = ⊥

  -- The same metadata in canonical form, the same raw content and the same digest.
  abbrev pub Agrees : EvidenceRecord Mapping → EvidenceRecord Mapping → Type 0
  Agrees r s =
      (canonical r.metadata ≡ canonical s.metadata)
      × (r.raw_content ≡ s.raw_content)
      × (r.digest ≡ s.digest)

  abbrev pub AllAgree : List (EvidenceRecord Mapping) → List (EvidenceRecord Mapping) → Type 0
  AllAgree [] [] = Unit
  AllAgree (r ∷ rs) (s ∷ ss) = Agrees r s × AllAgree rs ss
  AllAgree _ _ = ⊥

  -- The digest that the next record has to name.
  abbrev pub end_digest : Option String → List (EvidenceRecord Mapping) → Option String
  end_digest previous [] = previous
  end_digest previous (r ∷ rs) = end_digest (some r.digest) rs

  pub digest_of-payload :
      (r : EvidenceRecord Mapping)
      → digest_of hash canonical r.previous_digest r.metadata r.raw_content ≡ ok r.digest
      → (x : List ℕ) × HasPayload r x × (hash.sha256 x ≡ r.digest)
  unfolding digest_of compute_digest
  digest_of-payload r h =
      let (encoded, made, h') = >>=-eq-ok (of_domain (canonical r.metadata)) _ h in
      let (x, joined, hashed) = >>=-eq-ok (framed r.previous_digest encoded r.raw_content) _ h' in
      (x, (encoded, of_domain-ok _ made, joined), ground arith)

  -- Links that lead to the same bytes.
  abbrev SameLink : Option String → Option String → Type 0
  SameLink p q =
      (p ≡ q) ⊎ (previous_bytes p ≡ ok genesis_digest) × (previous_bytes q ≡ ok genesis_digest)

  same_record :
      (r s : EvidenceRecord Mapping)
      → has_form r.previous_digest ≡ true
      → has_form s.previous_digest ≡ true
      → digest_of hash canonical r.previous_digest r.metadata r.raw_content ≡ ok r.digest
      → digest_of hash canonical s.previous_digest s.metadata s.raw_content ≡ ok s.digest
      → r.digest ≡ s.digest
      → Collides r s ⊎ Agrees r s × SameLink r.previous_digest s.previous_digest
  same_record r s hr hs er es same =
      let (x, px, hx) = digest_of-payload r er in
      let (y, py, hy) = digest_of-payload s es in
      elim (Bool-cases (codes_beq x y)) [
        | inl equal ↦
            let xy = (codes_beq_iff x y).0 equal in
            let (metadata, content, link) =
              framed_inj r.previous_digest s.previous_digest px.0 py.0 r.raw_content s.raw_content
                hr hs (px.2 ∙ ap ok xy) py.2 in
            inr ((px.1 ∙ ap ok metadata ∙ sym py.1, content, same), link)
        | inr other ↦
            inl (x, y, px, py, λ xy. cc ((codes_beq_iff x y).1 xy, other), hx ∙ same ∙ sym hy)
      ]

  digest-IsSha256 :
      (r : EvidenceRecord Mapping)
      → digest_of hash canonical r.previous_digest r.metadata r.raw_content ≡ ok r.digest
      → is_sha256 r.digest ≡ true
  digest-IsSha256 r h =
      let (x, _, hx) = digest_of-payload r h in
      subst (λ d. is_sha256 d ≡ true) hx (hash.sha256-IsSha256 x)

  own_digest :
      (r : EvidenceRecord Mapping) {p : Option String}
      → r.previous_digest ≡ p
      → digest_of hash canonical p r.metadata r.raw_content ≡ ok r.digest
      → digest_of hash canonical r.previous_digest r.metadata r.raw_content ≡ ok r.digest
  own_digest r link h =
      subst (λ q. digest_of hash canonical q r.metadata r.raw_content ≡ ok r.digest) (sym link) h

  link-same_digest :
      (d d' : String)
      → is_sha256 d ≡ true
      → is_sha256 d' ≡ true
      → SameLink (some d) (some d')
      → d ≡ d'
  link-same_digest d d' h h' (inl same) = cc same
  link-same_digest d d' h h' (inr genesis) = same_digest d d' h h' genesis.0 genesis.1

  same_end :
      (p q : Option String) (rs ss : List (EvidenceRecord Mapping))
      → has_form p ≡ true
      → has_form q ≡ true
      → IsLinked hash canonical p rs
      → IsLinked hash canonical q ss
      → length rs ≡ length ss
      → end_digest p rs ≡ end_digest q ss
      → HasCollision rs ss ⊎ AllAgree rs ss × SameLink p q
  same_end p q [] [] hp hq lr ls n e = inr (tt, inl e)
  same_end p q [] (s ∷ ss) hp hq lr ls n e = absurd (omega (arith, n))
  same_end p q (r ∷ rs) [] hp hq lr ls n e = absurd (omega (arith, n))
  same_end p q (r ∷ rs) (s ∷ ss) hp hq lr ls n e =
      let er = own_digest r lr.0 lr.1 in
      let es = own_digest s ls.0 ls.1 in
      let fr = digest-IsSha256 r er in
      let fs = digest-IsSha256 s es in
      elim (same_end (some r.digest) (some s.digest) rs ss fr fs lr.2 ls.2 (omega (arith, n)) e) [
        | inl later ↦ inl (inr later)
        | inr (agree, link) ↦
            let hr = ap has_form lr.0 ∙ hp in
            let hs = ap has_form ls.0 ∙ hq in
            elim (same_record r s hr hs er es (link-same_digest r.digest s.digest fr fs link)) [
              | inl here ↦ inl (inl here)
              | inr (agrees, before) ↦ inr (
                (agrees, agree),
                subst (λ l. SameLink l q) lr.0 (subst (SameLink r.previous_digest) ls.0 before),
              )
            ]
      ]

  -- Two chains of one length with the same last digest agree record by record, in the canonical
  -- form of the metadata, the raw content and the digest, unless two records at one position have
  -- equal digests of different bytes.
  pub IsChain-same_end :
      (rs ss : List (EvidenceRecord Mapping))
      → IsChain hash canonical rs
      → IsChain hash canonical ss
      → length rs ≡ length ss
      → end_digest none rs ≡ end_digest none ss
      → HasCollision rs ss ⊎ AllAgree rs ss
  IsChain-same_end rs ss cr cs n e = elim (same_end none none rs ss refl refl cr.1 cs.1 n e) [
    | inl collision ↦ inl collision
    | inr (agree, _) ↦ inr agree
  ]
