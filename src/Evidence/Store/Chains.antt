-- ===== src/Evidence/Store/Chains.antt =====
-- The invariant of the store: chains, and an index that holds their records.
use vuln_proof_claw.Common.{
  ℕ, Bool, true, false, ◌≡◌, ◌≢◌, refl, inl, inr, Option, none, some, List, [], ◌∷◌, ◌++◌, arith,
  All, last?, lookup, insert, lookup-insert, ◌==◌, string_eq, option_eq, eq_iff, eq_self, String,
  Bool-cases, if◌then◌else◌, ap, ◌∙◌, sym, subst, All-append,
}
use vuln_proof_claw.Common.Results.{ok}
use vuln_proof_claw.Domain.Errors.{Raises}
use vuln_proof_claw.Evidence.{EvidenceMetadata, EvidenceRecord}
use vuln_proof_claw.Evidence.HashChain.{Hash, digest_of}
use vuln_proof_claw.Evidence.HashChain.Chains.{IsChain, IsLinked, HasDistinctIds}
use vuln_proof_claw.Evidence.HashChain.Tampering.{end_digest}
use vuln_proof_claw.Evidence.Store.{
  EvidenceStore, digest_of_last, for_engagement, opened, indexed, or_empty,
}

either : {A : Type 0} (P : A → Type 0) (b : Bool) (x y : A) → P x → P y → P (if b then x else y)
either P true x y px py = px
either P false x y px py = py

-- A row other than the one that is added.
kept_row :
    {A : Type 0} (i j : String) (rows : List (String × A)) (a : A) {x : A}
    → lookup i rows ≡ none
    → lookup j rows ≡ some x
    → (if i == j then some a else lookup j rows) ≡ some x
kept_row i j rows a new h = elim (Bool-cases (i == j)) [
  | inl same ↦ cc (subst (λ k. lookup k rows ≡ none) ((eq_iff i j).0 same) new, h)
  | inr other ↦ rw other h
]

or_empty-if :
    {A : Type 0} (b : Bool) (xs : List A) (o : Option (List A))
    → or_empty (if b then some xs else o) ≡ (if b then xs else or_empty o)
or_empty-if true xs o = refl
or_empty-if false xs o = refl

module _ (hash : Hash) {Mapping : Type 0}
    (canonical : EvidenceMetadata Mapping → Raises (List ℕ)) where
  distinct-snoc :
      (rs : List (EvidenceRecord Mapping)) (r : EvidenceRecord Mapping)
      → HasDistinctIds hash canonical rs
      → All (λ (s : EvidenceRecord Mapping). s.metadata.evidence_id ≢ r.metadata.evidence_id) rs
      → HasDistinctIds hash canonical (rs ++ r ∷ [])
  distinct-snoc [] r d n = (tt, tt)
  distinct-snoc (s ∷ rs) r d n =
      (All-append _ rs (r ∷ []) d.0 (n.0, tt), distinct-snoc rs r d.1 n.1)

  IsLinked-snoc :
      (p : Option String) (rs : List (EvidenceRecord Mapping)) (r : EvidenceRecord Mapping)
      → IsLinked hash canonical p rs
      → r.previous_digest ≡ end_digest hash canonical p rs
      → digest_of hash canonical r.previous_digest r.metadata r.raw_content ≡ ok r.digest
      → IsLinked hash canonical p (rs ++ r ∷ [])
  IsLinked-snoc p [] r l e d =
      (e, subst (λ q. digest_of hash canonical q r.metadata r.raw_content ≡ ok r.digest) e d, tt)
  IsLinked-snoc p (s ∷ rs) r l e d = (l.0, l.1, IsLinked-snoc (some s.digest) rs r l.2 e d)

  end_digest-last :
      (p : Option String) (r : EvidenceRecord Mapping) (rs : List (EvidenceRecord Mapping))
      → end_digest hash canonical p (r ∷ rs) ≡ digest_of_last (last? (r ∷ rs))
  end_digest-last p r [] = refl
  end_digest-last p r (s ∷ rs) = end_digest-last (some r.digest) s rs

  end_digest-none :
      (rs : List (EvidenceRecord Mapping))
      → end_digest hash canonical none rs ≡ digest_of_last (last? rs)
  end_digest-none [] = refl
  end_digest-none (r ∷ rs) = end_digest-last none r rs

  -- The index holds each of these records.
  abbrev pub IsListed : EvidenceStore Mapping → List (EvidenceRecord Mapping) → Type 0
  IsListed s =
      All (λ (r : EvidenceRecord Mapping). lookup r.metadata.evidence_id s.records ≡ some r)

  -- The chain of each engagement is one, and the index holds each of its records.
  pub record IsStore (s : EvidenceStore Mapping) : Type 0 where
    pub chained : (k : String) → IsChain hash canonical (for_engagement k s)
    pub listed : (k : String) → IsListed s (for_engagement k s)

  pub for_engagement-opened :
      (e k : String) (s : EvidenceStore Mapping)
      → for_engagement k (opened e s) ≡ for_engagement k s
  unfolding for_engagement opened
  for_engagement-opened e k s =
      ap or_empty (lookup-insert e k (for_engagement e s) s.chains) ∙ ground (arith, eq_iff e k)

  pub records-opened : (e : String) (s : EvidenceStore Mapping) → (opened e s).records ≡ s.records
  unfolding opened
  records-opened e s = refl

  pub for_engagement-indexed :
      (r : EvidenceRecord Mapping) (k : String) (s : EvidenceStore Mapping)
      → for_engagement k (indexed r s) ≡ (
          if r.metadata.engagement_id == k
          then for_engagement r.metadata.engagement_id s ++ r ∷ []
          else for_engagement k s)
  unfolding for_engagement indexed
  for_engagement-indexed r k s =
      ap or_empty (
        lookup-insert r.metadata.engagement_id k
          (for_engagement r.metadata.engagement_id s ++ r ∷ []) s.chains)
      ∙ or_empty-if (r.metadata.engagement_id == k)
          (for_engagement r.metadata.engagement_id s ++ r ∷ []) (lookup k s.chains)

  pub records-indexed :
      (r : EvidenceRecord Mapping) (s : EvidenceStore Mapping)
      → (indexed r s).records ≡ insert r.metadata.evidence_id r s.records
  unfolding indexed
  records-indexed r s = refl

  -- An index that gains a new identifier still holds the records that it held.
  IsListed-indexed :
      (r : EvidenceRecord Mapping) (s : EvidenceStore Mapping) (rs : List (EvidenceRecord Mapping))
      → lookup r.metadata.evidence_id s.records ≡ none
      → IsListed s rs
      → IsListed (indexed r s) rs
  IsListed-indexed r s [] new l = tt
  IsListed-indexed r s (x ∷ rs) new l = (
    ap (lookup x.metadata.evidence_id) (records-indexed r s)
        ∙ lookup-insert r.metadata.evidence_id x.metadata.evidence_id r s.records
        ∙ kept_row r.metadata.evidence_id x.metadata.evidence_id s.records r new l.0,
    IsListed-indexed r s rs new l.1,
  )

  new-Differs :
      (r : EvidenceRecord Mapping) (s : EvidenceStore Mapping) (rs : List (EvidenceRecord Mapping))
      → lookup r.metadata.evidence_id s.records ≡ none
      → IsListed s rs
      → All (λ (x : EvidenceRecord Mapping). x.metadata.evidence_id ≢ r.metadata.evidence_id) rs
  new-Differs r s [] new l = tt
  new-Differs r s (x ∷ rs) new l = (
    λ same. cc (subst (λ k. lookup k s.records ≡ some x) same l.0, new),
    new-Differs r s rs new l.1,
  )

  pub indexed-IsStore :
      (r : EvidenceRecord Mapping) (s : EvidenceStore Mapping)
      → IsStore s
      → lookup r.metadata.evidence_id s.records ≡ none
      → r.previous_digest ≡ digest_of_last (last? (for_engagement r.metadata.engagement_id s))
      → digest_of hash canonical r.previous_digest r.metadata r.raw_content ≡ ok r.digest
      → IsStore (indexed r s)
  indexed-IsStore r s store new link digest =
      let own = for_engagement r.metadata.engagement_id s in
      let chain = store.chained r.metadata.engagement_id in
      let fresh = new-Differs r s own new (store.listed r.metadata.engagement_id) in
      let longer : IsChain hash canonical (own ++ r ∷ []) = (
        distinct-snoc own r chain.0 fresh,
        IsLinked-snoc none own r chain.1 (link ∙ sym (end_digest-none own)) digest,
      ) in
      let itself : lookup r.metadata.evidence_id (indexed r s).records ≡ some r =
        ap (lookup r.metadata.evidence_id) (records-indexed r s)
        ∙ lookup-insert r.metadata.evidence_id r.metadata.evidence_id r s.records
        ∙ rw (eq_self r.metadata.evidence_id) in
      let all_listed : IsListed (indexed r s) (own ++ r ∷ []) =
        All-append _ own (r ∷ [])
          (IsListed-indexed r s own new (store.listed r.metadata.engagement_id)) (itself, tt) in
      record {
        chained = λ k. subst (IsChain hash canonical) (sym (for_engagement-indexed r k s)) (
            either (IsChain hash canonical) (r.metadata.engagement_id == k) (own ++ r ∷ [])
              (for_engagement k s) longer (store.chained k));
        listed = λ k. subst (IsListed (indexed r s)) (sym (for_engagement-indexed r k s)) (
            either (IsListed (indexed r s)) (r.metadata.engagement_id == k) (own ++ r ∷ [])
              (for_engagement k s) all_listed
              (IsListed-indexed r s (for_engagement k s) new (store.listed k)));
      }

  pub opened-IsStore : (e : String) (s : EvidenceStore Mapping) → IsStore s → IsStore (opened e s)
  unfolding opened
  opened-IsStore e s store = record {
    chained =
        λ k. subst (IsChain hash canonical) (sym (for_engagement-opened e k s)) (store.chained k);
    listed =
        λ k. subst (IsListed (opened e s)) (sym (for_engagement-opened e k s)) (store.listed k);
  }
