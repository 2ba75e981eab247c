-- ===== src/Findings/Direct.antt =====
-- The evidence of a finding: the direct evidence of its candidate, from the candidate's execution.
use cr_agent.Prelude.{
  Bool, true, ◌≡◌, refl, sym, ap, some, List, [], ◌∷◌, map, keep, All, Bool-cases, Option-cases,
  ◌⊎◌, ◌∙◌, arith, inl, inr,
}
use cr_agent.Prelude.Text.{Text, codes, text_eq, text_eq_refl, text_eq→eq}
use cr_agent.Planning.Models.{contains}
use cr_agent.Findings.Models.{EvidenceReference, FinalFinding}
use cr_agent.Findings.Validation.{
  Contribution, Texts, Request, is_direct, evidence_with, direct_refs, has_any,
}
use cr_agent.Findings.Processor.{evidence_of, final_finding}

-- The evidence with this id, of an execution, is changed code or a relation of changes.
pub record IsDirect (r : Request) (execution_id ref : Text) : Type 0 where
  pub evidence : EvidenceReference
  pub found : evidence_with ref (evidence_of execution_id r.executions) ≡ some evidence
  pub proper :
      (evidence.evidence_type ≡ codes "changed_code")
      ⊎ (evidence.evidence_type ≡ codes "change_relation")

-- A finding names exactly those references of its candidate that are direct evidence of the
-- candidate's execution, at least one, and its first source is its candidate.
pub record Retains (r : Request) (f : FinalFinding) : Type 0 where
  pub shown :
      All
        (λ ref.
          IsDirect r f.candidate.execution_id ref × (contains ref f.candidate.evidence_refs ≡ true))
        f.evidence_ids
  pub complete :
      All
        (λ ref. IsDirect r f.candidate.execution_id ref → contains ref f.evidence_ids ≡ true)
        f.candidate.evidence_refs
  pub some_evidence : has_any f.evidence_ids ≡ true
  pub others : List Text
  pub from : f.source_candidate_ids ≡ f.candidate.candidate_id ∷ others

module _ {A : Type 0} where
  pub All-map : {P Q : A → Type 0} → ((x : A) → P x → Q x) → (xs : List A) → All P xs → All Q xs
  All-map f [] h = tt
  All-map f (x ∷ xs) h = (f x h.0, All-map f xs h.1)

contains_each : (xs : List Text) → All (λ y. contains y xs ≡ true) xs
contains_each [] = tt
contains_each (x ∷ xs) =
    (rw (text_eq_refl x) refl, All-map (λ y h. ground (arith, h)) xs (contains_each xs))

module _ (p : Text → Bool) where
  contains-keep :
      (y : Text) (xs : List Text)
      → contains y xs ≡ true
      → p y ≡ true
      → contains y (keep p xs) ≡ true
  contains-keep y [] h e = h
  contains-keep y (x ∷ xs) h e = elim (Bool-cases (text_eq y x)) [
    | inl same ↦
        let kept : p x ≡ true = ap p (sym (text_eq→eq y x same)) ∙ e in rw kept (rw same refl)
    | inr other ↦ elim (Bool-cases (p x)) [
      | inl f ↦ rw f (rw other (contains-keep y xs (rw other at h) e))
      | inr f ↦ rw f (contains-keep y xs (rw other at h) e)
    ]
  ]

  keep-contains :
      (y : Text) (xs : List Text)
      → contains y (keep p xs) ≡ true
      → (p y ≡ true) × (contains y xs ≡ true)
  keep-contains y [] h = cc h
  keep-contains y (x ∷ xs) h = elim (Bool-cases (p x)) [
    | inr f ↦ let (e, g) = keep-contains y xs (rw f at h) in (e, ground (arith, g))
    | inl f ↦ elim (Bool-cases (text_eq y x)) [
      | inl same ↦ (ap p (text_eq→eq y x same) ∙ f, rw same refl)
      | inr other ↦
          let later : contains y (keep p xs) ≡ true = (rw other at (rw f at h)) in
          let (e, g) = keep-contains y xs later in (e, rw other g)
    ]
  ]

module _ (r : Request) (i : Text) where
  abbrev direct : Text → Bool
  direct ref = is_direct (evidence_with ref (evidence_of i r.executions))

  direct-IsDirect : (ref : Text) → direct ref ≡ true → IsDirect r i ref
  direct-IsDirect ref h = elim (Option-cases (evidence_with ref (evidence_of i r.executions))) [
    | inl e ↦ let broken = (rw e at h) in cc broken
    | inr (v, e) ↦ record { evidence = v; found = e; proper = by_type v (rw e at h) }
  ]
    where
      by_type :
          (v : EvidenceReference)
          → is_direct (some v) ≡ true
          → (v.evidence_type ≡ codes "changed_code") ⊎ (v.evidence_type ≡ codes "change_relation")
      by_type v h = elim (Bool-cases (text_eq v.evidence_type (codes "changed_code"))) [
        | inl e ↦ inl (text_eq→eq v.evidence_type (codes "changed_code") e)
        | inr e ↦ inr (text_eq→eq v.evidence_type (codes "change_relation") (rw e at h))
      ]

  IsDirect-direct : (ref : Text) → IsDirect r i ref → direct ref ≡ true
  IsDirect-direct ref d = rw d.found (by_type d.evidence d.proper)
    where
      by_type :
          (v : EvidenceReference)
          → (v.evidence_type ≡ codes "changed_code") ⊎ (v.evidence_type ≡ codes "change_relation")
          → is_direct (some v) ≡ true
      by_type v (inl e) = rw e refl
      by_type v (inr e) = rw e refl

  pub keep_shown :
      (refs : List Text)
      → All (λ ref. IsDirect r i ref × (contains ref refs ≡ true)) (keep direct refs)
  keep_shown refs =
      All-map (λ ref h. let (e, g) = keep-contains direct ref refs h in (direct-IsDirect ref e, g))
        (keep direct refs) (contains_each (keep direct refs))

  pub keep_complete :
      (refs : List Text)
      → All (λ ref. IsDirect r i ref → contains ref (keep direct refs) ≡ true) refs
  keep_complete refs =
      All-map (λ ref h d. contains-keep direct ref refs h (IsDirect-direct ref d)) refs
        (contains_each refs)

-- The finding of contributions whose first has the evidence of its candidate's execution.
pub final_finding-Retains :
    (t : Texts) (r : Request) (f : Text) (c : Contribution) (cs : List Contribution)
    → c.evidence ≡ evidence_of c.candidate.execution_id r.executions
    → has_any (direct_refs c) ≡ true
    → Retains r (final_finding t r f c cs)
final_finding-Retains t r f c cs own h = record {
  shown = rw own (keep_shown r c.candidate.execution_id c.candidate.evidence_refs);
  complete = rw own (keep_complete r c.candidate.execution_id c.candidate.evidence_refs);
  some_evidence = h;
  others = map (λ x. x.candidate.candidate_id) cs;
  from = refl;
}
