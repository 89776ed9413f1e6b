-- ===== src/Evidence/Store/Histories.antt =====
-- The stores that calls lead to.
use vuln_proof_claw.Common.{
  ℕ, ◌≡◌, ◌⊎◌, inl, inr, List, arith, length, last?, lookup, ◌==◌, string_eq, option_eq,
  option_beq_iff, eq_iff, is_some, String, Bool-cases, ap, ◌∙◌, sym, subst,
}
use vuln_proof_claw.Common.Results.{result_cases, ok}
use vuln_proof_claw.Domain.Errors.{Raises}
use vuln_proof_claw.Evidence.{EvidenceMetadata, EvidenceRecord, Keeps}
use vuln_proof_claw.Evidence.HashChain.{Hash, append_to_chain, verify_chain, verified}
use vuln_proof_claw.Evidence.HashChain.Chains.{verify_chain-IsChain}
use vuln_proof_claw.Evidence.Store.{
  EvidenceStore, empty, digest_of_last, for_engagement, opened, append, add,
}
use vuln_proof_claw.Evidence.Store.Chains.{
  IsStore, opened-IsStore, indexed-IsStore, for_engagement-opened, records-opened,
}
use vuln_proof_claw.Evidence.Store.Appending.{
  Extends, tail_of, Outcome, append-Appends, append_to_chain-ok,
}

module _ (hash : Hash) {Mapping : Type 0}
    (canonical : EvidenceMetadata Mapping → Raises (List ℕ)) where
  extended-IsStore :
      (s : EvidenceStore Mapping) (r : EvidenceRecord Mapping) (after : EvidenceStore Mapping)
      → IsStore hash canonical s
      → Extends hash canonical s r after
      → IsStore hash canonical after
  extended-IsStore s r after store (new, link, digest, made) =
      let e = r.metadata.engagement_id in
      subst (IsStore hash canonical) (sym made) (
        indexed-IsStore hash canonical r (opened e s) (opened-IsStore hash canonical e s store)
          (ap (lookup r.metadata.evidence_id) (records-opened hash canonical e s) ∙ new)
          (link
            ∙ ap (λ rs. digest_of_last (last? rs))
                (sym (for_engagement-opened hash canonical e e s)))
          digest)

  append-IsStore :
      (m : EvidenceMetadata Mapping) (raw : List ℕ) (s : EvidenceStore Mapping)
      → IsStore hash canonical s
      → IsStore hash canonical (append hash canonical m raw s).1
  append-IsStore m raw s store = elim (append-Appends hash canonical m raw s) [
    | inl same ↦ subst (λ (o : Outcome hash canonical). IsStore hash canonical o.1) (sym same) store
    | inr (inl (r, _, _, _, extends)) ↦ extended-IsStore s r _ store extends
    | inr (inr (e, same)) ↦
        subst (λ (o : Outcome hash canonical). IsStore hash canonical o.1) (sym same)
          (opened-IsStore hash canonical m.engagement_id s store)
  ]

  abbrev Added : Type 0
  Added = Keeps (Unit {0}) × EvidenceStore Mapping

  add-cases :
      (r : EvidenceRecord Mapping) (s : EvidenceStore Mapping)
      → ((add hash canonical r s).1 ≡ s)
        ⊎ (((add hash canonical r s).1 ≡ opened r.metadata.engagement_id s)
            ⊎ Extends hash canonical s r (add hash canonical r s).1)
  unfolding add
  add-cases r s = elim (Bool-cases (is_some (lookup r.metadata.evidence_id s.records))) [
    | inl present ↦ inl (rw present)
    | inr new ↦
        elim (Bool-cases (r.previous_digest == tail_of hash canonical r.metadata.engagement_id s)) [
          | inr other ↦ inr (inl (rw (new, other)))
          | inl linked ↦
              elim (result_cases
                (append_to_chain hash canonical r.metadata r.raw_content r.previous_digest)) [
                  | inr (e, failed) ↦ inr (inl (rw (new, linked, failed)))
                  | inl (x, made) ↦ elim (Bool-cases (r.digest == x.digest)) [
                    | inr other ↦ inr (inl (rw (new, linked, made, other)))
                    | inl same ↦ inr (
                        inr (
                          ground arith,
                          (option_beq_iff r.previous_digest
                                (tail_of hash canonical r.metadata.engagement_id s)).0
                              linked,
                          (append_to_chain-ok hash canonical r.metadata r.raw_content
                                r.previous_digest made).3
                              ∙ ap ok (sym ((eq_iff r.digest x.digest).0 same)),
                          rw (new, linked, made, same),
                        ))
                  ]
                ]
        ]
  ]

  add-IsStore :
      (r : EvidenceRecord Mapping) (s : EvidenceStore Mapping)
      → IsStore hash canonical s
      → IsStore hash canonical (add hash canonical r s).1
  add-IsStore r s store = elim (add-cases r s) [
    | inl same ↦ subst (IsStore hash canonical) (sym same) store
    | inr (inl ready) ↦
        subst (IsStore hash canonical) (sym ready)
          (opened-IsStore hash canonical r.metadata.engagement_id s store)
    | inr (inr extends) ↦ extended-IsStore s r _ store extends
  ]

  -- The stores that calls lead to, those that fail included.
  pub data History : EvidenceStore Mapping → Type 0 where
    created : History empty
    appended :
        {s : EvidenceStore Mapping} (m : EvidenceMetadata Mapping) (raw : List ℕ)
        → History s
        → History (append hash canonical m raw s).1
    added :
        {s : EvidenceStore Mapping} (r : EvidenceRecord Mapping)
        → History s
        → History (add hash canonical r s).1

  empty-IsStore : IsStore hash canonical empty
  unfolding for_engagement
  empty-IsStore = record { chained = λ k. (tt, tt); listed = λ k. tt }

  History-IsStore : {s : EvidenceStore Mapping} → History s → IsStore hash canonical s
  History-IsStore created = empty-IsStore
  History-IsStore (appended {s} m raw h) = append-IsStore m raw s (History-IsStore h)
  History-IsStore (added {s} r h) = add-IsStore r s (History-IsStore h)

  -- After any calls of `append` and `add`, whether they succeeded or not, `verify_chain` finds the
  -- chain of every engagement valid.
  pub History-verify_chain :
      {s : EvidenceStore Mapping}
      → History s
      → (k : String)
      → verify_chain hash canonical (for_engagement k s)
        ≡ ok (verified (length (for_engagement k s)))
  History-verify_chain {s = s} h k =
      (verify_chain-IsChain hash canonical (for_engagement k s)).1 ((History-IsStore h).chained k)
