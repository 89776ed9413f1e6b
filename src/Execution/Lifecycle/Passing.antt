-- ===== src/Execution/Lifecycle/Passing.antt =====
-- What the checks of `collect` of execution/lifecycle.py make of the state that an action is closed in.
use vuln_proof_claw.Common.{
  Bool, true, false, not, ◌&&◌, ◌≡◌, ◌≢◌, refl, ap, ◌∙◌, sym, subst, String, ◌==◌, all, is_empty,
  if_split, string_eq, arith, ◌⊎◌, inl, inr,
}
use vuln_proof_claw.Common.Results.{ok, err, >>=-eq-ok}
use vuln_proof_claw.Domain.Enums.{ActionState, action_state_eq}
use vuln_proof_claw.Domain.Models.{Action}
use vuln_proof_claw.Domain.ActionState.{is_terminal}
use vuln_proof_claw.Execution.Protocol.{WorkerResponse, Validates}
use vuln_proof_claw.Execution.Manager.Bound.{validate_response-ok}
use vuln_proof_claw.Execution.Lifecycle.{Ledger, Coordinates, raised_as, protocol, failed_response}
use vuln_proof_claw.Execution.Lifecycle.Collect.{
  Persisted, persisted, rejected, aborted, Closing, captured_response, fail_with, accept_capture,
  after_persist, with_capture, belongs, with_evidence,
}

failed-is_terminal :
    (is_terminal ActionState.failed ≡ true) × (ActionState.failed ≢ ActionState.succeeded)
unfolding is_terminal
failed-is_terminal = (refl, λ e. cc)

and_not-false : (a b : Bool) → (a && not b) ≡ false → (a ≡ false) ⊎ (b ≡ true)
and_not-false true true h = inr refl
and_not-false true false h = cc
and_not-false false b h = inl refl

captured_response-action_id :
    (r : WorkerResponse) (evidence_id : String) {q : WorkerResponse}
    → captured_response r evidence_id ≡ ok q
    → q.action_id ≡ r.action_id
unfolding captured_response
captured_response-action_id r evidence_id h =
    ap (λ (x : WorkerResponse). x.action_id) (validate_response-ok _ h)

module _ {Network : Type 0} where
  -- From one closing to the next: the state is terminal, and if it is success it and the action's
  -- identifier are as before.
  pub record Passes (c c' : Closing Network) : Type 0 where
    pub ended : is_terminal c'.target ≡ true
    pub kept :
        (c'.target ≢ ActionState.succeeded)
        ⊎ (c'.target ≡ c.target) × (c'.response.action_id ≡ c.response.action_id)

  Passes-failed : (c c' : Closing Network) → c'.target ≡ ActionState.failed → Passes c c'
  Passes-failed c c' h = record {
    ended = ap is_terminal h ∙ failed-is_terminal.0;
    kept = inl (λ e. failed-is_terminal.1 (sym h ∙ e));
  }

  Passes-same : (c c' : Closing Network) → is_terminal c.target ≡ true → c ≡ c' → Passes c c'
  Passes-same c c' ended same = record {
    ended = ap (λ (x : Closing Network). is_terminal x.target) (sym same) ∙ ended;
    kept = inr (
      ap (λ (x : Closing Network). x.target) (sym same),
      ap (λ (x : Closing Network). x.response.action_id) (sym same),
    );
  }

  fail_with-failed :
      (r : WorkerResponse) (code : String) (l : Ledger Network) {c : Closing Network}
      → fail_with r code l ≡ ok c
      → c.target ≡ ActionState.failed
  unfolding fail_with
  fail_with-failed r code l {c} h =
      let (failed, _, made) = >>=-eq-ok (raised_as protocol (failed_response r code)) _ h in
      ground arith

  accept_capture-Passes :
      (c : Closing Network) (l : Ledger Network) (built : Validates WorkerResponse)
      {c' : Closing Network}
      → is_terminal c.target ≡ true
      → ((q : WorkerResponse) → built ≡ ok q → q.action_id ≡ c.response.action_id)
      → accept_capture c l built ≡ ok c'
      → Passes c c'
  unfolding accept_capture
  accept_capture-Passes c l (err e) {c'} ended same h =
      Passes-failed c c' (fail_with-failed c.response _ l h)
  accept_capture-Passes c l (ok q) {c'} ended same h =
      let made : record c { response = q; ledger = l } ≡ c' = ground arith in
      record {
        ended = ap (λ (x : Closing Network). is_terminal x.target) (sym made) ∙ ended;
        kept = inr (
          ap (λ (x : Closing Network). x.target) (sym made),
          ap (λ (x : Closing Network). x.response.action_id) (sym made) ∙ same q refl,
        );
      }

  after_persist-Passes :
      (c : Closing Network) (p : Persisted Network) {c' : Closing Network}
      → is_terminal c.target ≡ true
      → after_persist c p ≡ ok c'
      → Passes c c'
  unfolding after_persist
  after_persist-Passes c (persisted id l) ended h =
      accept_capture-Passes c l (captured_response c.response id) ended
        (λ q. captured_response-action_id c.response id) h
  after_persist-Passes c (rejected l) {c'} ended h =
      Passes-failed c c' (fail_with-failed c.response _ l h)
  after_persist-Passes c (aborted e) ended h = cc

  pub with_capture-Passes :
      (persist : WorkerResponse → Action → Ledger Network → Persisted Network) (a : Action)
      (c c' : Closing Network)
      → is_terminal c.target ≡ true
      → with_capture persist a c ≡ ok c'
      → Passes c c'
  unfolding with_capture
  with_capture-Passes persist a c c' ended =
      if_split (λ (x : Coordinates (Closing Network)). x ≡ ok c' → Passes c c')
        (c.target == ActionState.succeeded && not (is_empty c.response.http_captures)) _ _
        (λ _ h. after_persist-Passes c (persist c.response a c.ledger) ended h)
        (λ _ h. Passes-same c c' ended (ground arith))

  -- After the check of the evidence, a success names evidence of its action only.
  pub with_evidence_lem :
      (c c' : Closing Network)
      → is_terminal c.target ≡ true
      → with_evidence c ≡ ok c'
      → Passes c c'
        × ((c'.target ≢ ActionState.succeeded)
            ⊎ (all (belongs c'.ledger.evidence c'.response.action_id) c'.response.evidence_ids
                ≡ true))
  unfolding with_evidence
  with_evidence_lem c c' ended =
      if_split
        (λ (x : Coordinates (Closing Network)).
          x ≡ ok c'
          → Passes c c'
            × ((c'.target ≢ ActionState.succeeded)
                ⊎ (all (belongs c'.ledger.evidence c'.response.action_id) c'.response.evidence_ids
                    ≡ true)))
        (c.target == ActionState.succeeded
          && not (all (belongs c.ledger.evidence c.response.action_id) c.response.evidence_ids))
        _ _
        (λ _ h.
          let failed = fail_with-failed c.response _ c.ledger h in
          (Passes-failed c c' failed, inl (λ e. failed-is_terminal.1 (sym failed ∙ e))))
        (λ fits h.
          let same : c ≡ c' = ground arith in
          (
            Passes-same c c' ended same,
            subst
                (λ (x : Closing Network).
                  (x.target ≢ ActionState.succeeded)
                  ⊎ (all (belongs x.ledger.evidence x.response.action_id) x.response.evidence_ids
                      ≡ true))
                same
                (elim (and_not-false _ _ fits) [
                  | inl other ↦ inl (λ e.
                      cc (other, (action_state_eq.beq_iff c.target ActionState.succeeded).1 e))
                  | inr belonging ↦ inr belonging
                ]),
          ))

  -- Success at the end was success at the start, and the evidence belongs to the action of the start.
  pub Passes-succeeded :
      (first captured c : Closing Network) (action_id : String)
      → Passes first captured
      → Passes captured c
      → first.response.action_id ≡ action_id
      → (c.target ≢ ActionState.succeeded)
        ⊎ (all (belongs c.ledger.evidence c.response.action_id) c.response.evidence_ids ≡ true)
      → (c.target ≢ ActionState.succeeded)
        ⊎ (first.target ≡ c.target)
          × (all (belongs c.ledger.evidence action_id) c.response.evidence_ids ≡ true)
  Passes-succeeded first captured c action_id p q bound checked = elim q.kept [
    | inl other ↦ inl other
    | inr (target, same) ↦ elim p.kept [
      | inl other ↦ inl (λ e. other (sym target ∙ e))
      | inr (target', same') ↦ elim checked [
        | inl other ↦ inl other
        | inr belonging ↦ inr (
          sym (target ∙ target'),
          ap (λ k. all (belongs c.ledger.evidence k) c.response.evidence_ids)
                (sym (same ∙ same' ∙ bound))
              ∙ belonging,
        )
      ]
    ]
  ]
