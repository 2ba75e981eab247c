-- ===== src/Findings/Settled.antt =====
-- The loop over the candidates: each is accepted or rejected, once.
use mathlib.Core.List.{Perm, perm_append_comm, perm_middle}
use mathlib.Core.List.Perm
use cr_agent.Prelude.{
  true, false, ◌≡◌, refl, sym, ap, none, List, [], ◌∷◌, ◌++◌, map, append_assoc, All, All-append,
  Bool-cases, Option-cases, inl, inr, arith,
}
use cr_agent.Prelude.Text.{Text, text_eq}
use cr_agent.Planning.Models.{contains, unique}
use cr_agent.Findings.Models.{FindingRejection, CandidateFinding, WorkUnitExecutionResult}
use cr_agent.Findings.Validation.{Contribution, Texts, Request, validate_candidate}
use cr_agent.Findings.Processor.{
  Accepted, evidence_of, contributions_of, contributions, accept, Sorted, settle, settle_all,
}

abbrev pub id_of : Contribution → Text
id_of c = c.candidate.candidate_id

abbrev pub ids_of : List Contribution → List Text
ids_of cs = map id_of cs

abbrev pub accepted_ids : Accepted → List Text
accepted_ids [] = []
accepted_ids (g ∷ gs) = ids_of g.1 ++ accepted_ids gs

abbrev pub rejected_ids : List FindingRejection → List Text
rejected_ids rs = map (λ x. x.candidate_id) rs

abbrev pub keys : Accepted → List Text
keys [] = []
keys (g ∷ gs) = g.0 ∷ keys gs

pub map-append :
    {A B : Type 0} (f : A → B) (xs ys : List A) → map f (xs ++ ys) ≡ map f xs ++ map f ys
map-append f [] ys = refl
map-append f (x ∷ xs) ys = ap (λ r. f x ∷ r) (map-append f xs ys)

accept-ids :
    (f : Text) (c : Contribution) (gs : Accepted)
    → Perm (accepted_ids (accept f c gs)) (id_of c ∷ accepted_ids gs)
accept-ids f c [] = Perm.refl (id_of c ∷ [])
accept-ids f c (g ∷ gs) = elim (Bool-cases (text_eq g.0 f)) [
  | inl e ↦
      rw
        (
          e,
          map-append id_of g.1 (c ∷ []),
          append_assoc (ids_of g.1) (id_of c ∷ []) (accepted_ids gs),
        )
        (perm_middle (ids_of g.1) (accepted_ids gs))
  | inr e ↦ rw e (
      Perm.trans (Perm.append_left (ids_of g.1) (accept-ids f c gs))
        (perm_middle (ids_of g.1) (accepted_ids gs)))
]

accept-contains :
    (x f : Text) (c : Contribution) (gs : Accepted)
    → contains x (keys gs) ≡ false
    → text_eq x f ≡ false
    → contains x (keys (accept f c gs)) ≡ false
accept-contains x f c [] h g = rw g refl
accept-contains x f c (y ∷ gs) h g = elim (Bool-cases (text_eq y.0 f)) [
  | inl e ↦ rw e h
  | inr e ↦ rw e (ground (arith, accept-contains x f c gs))
]

accept-unique :
    (f : Text) (c : Contribution) (gs : Accepted)
    → unique (keys gs) ≡ true
    → unique (keys (accept f c gs)) ≡ true
accept-unique f c [] h = refl
accept-unique f c (g ∷ gs) h = elim (Bool-cases (text_eq g.0 f)) [
  | inl e ↦ rw e h
  | inr e ↦ rw e (ground (arith, accept-contains g.0 f c gs, accept-unique f c gs))
]

-- It comes with the evidence of its execution.
abbrev pub IsGrounded : Request → Contribution → Type 0
IsGrounded r c = c.evidence ≡ evidence_of c.execution.execution_id r.executions

-- Contributions to one finding: there is a first, and every one passed the checks.
abbrev pub Passed : Texts → Request → Contribution → Type 0
Passed t r c = (validate_candidate t r c ≡ none) × IsGrounded r c

pub record IsGroup (t : Texts) (r : Request) (g : Text × List Contribution) : Type 0 where
  pub first : Contribution
  pub others : List Contribution
  pub are : g.1 ≡ first ∷ others
  pub passed : All (Passed t r) g.1

module _ (t : Texts) (r : Request) where
  add-IsGroup :
      (g : Text × List Contribution) (c : Contribution)
      → IsGroup t r g
      → Passed t r c
      → IsGroup t r (g.0, g.1 ++ (c ∷ []))
  add-IsGroup g c i p = record {
    first = i.first;
    others = i.others ++ (c ∷ []);
    are = rw i.are refl;
    passed = All-append (Passed t r) g.1 (c ∷ []) i.passed (p, tt);
  }

  accept-IsGroup :
      (f : Text) (c : Contribution) (gs : Accepted)
      → Passed t r c
      → All (IsGroup t r) gs
      → All (IsGroup t r) (accept f c gs)
  accept-IsGroup f c [] p h = (record { first = c; others = []; are = refl; passed = (p, tt) }, tt)
  accept-IsGroup f c (g ∷ gs) p h = elim (Bool-cases (text_eq g.0 f)) [
    | inl e ↦ rw e (add-IsGroup g c h.0 p, h.1)
    | inr e ↦ rw e (h.0, accept-IsGroup f c gs p h.1)
  ]

  -- What holds after some candidates.
  pub record IsSorted (done : List Text) (s : Sorted t r) : Type 0 where
    pub apart : unique (keys s.accepted) ≡ true
    pub groups : All (IsGroup t r) s.accepted
    pub conserved : Perm (accepted_ids s.accepted ++ rejected_ids s.rejections) done

  settle-IsSorted :
      (done : List Text) (c : Contribution) (s : Sorted t r)
      → IsGrounded r c
      → IsSorted done s
      → IsSorted (id_of c ∷ done) (settle t r c (validate_candidate t r c) s)
  settle-IsSorted done c s own i = elim (Option-cases (validate_candidate t r c)) [
    | inl e ↦ rw e (record {
      apart = accept-unique (t.fingerprint c.candidate) c s.accepted i.apart;
      groups = accept-IsGroup (t.fingerprint c.candidate) c s.accepted (e, own) i.groups;
      conserved =
          Perm.trans
            (Perm.append_right (rejected_ids s.rejections)
              (accept-ids (t.fingerprint c.candidate) c s.accepted))
            (Perm.cons (id_of c) i.conserved);
    })
    | inr (reason, e) ↦ rw e (record {
      apart = i.apart;
      groups = i.groups;
      conserved =
          rw
            (
              map-append (λ x. x.candidate_id) s.rejections
                  (record { candidate_id = id_of c; reason = reason } ∷ []),
              sym (
                  append_assoc (accepted_ids s.accepted) (rejected_ids s.rejections)
                    (id_of c ∷ [])),
            )
            (Perm.trans
              (perm_append_comm (accepted_ids s.accepted ++ rejected_ids s.rejections)
                (id_of c ∷ []))
              (Perm.cons (id_of c) i.conserved));
    })
  ]

  pub settle_all-IsSorted :
      (cs : List Contribution) (done : List Text) (s : Sorted t r)
      → All (IsGrounded r) cs
      → IsSorted done s
      → IsSorted (ids_of cs ++ done) (settle_all t r cs s)
  unfolding settle_all
  settle_all-IsSorted [] done s own i = i
  settle_all-IsSorted (c ∷ cs) done s own i =
      let rest =
        settle_all-IsSorted cs (id_of c ∷ done) (settle t r c (validate_candidate t r c) s) own.1
          (settle-IsSorted done c s own.0 i) in
      record {
        apart = rest.apart;
        groups = rest.groups;
        conserved = Perm.trans rest.conserved (perm_middle (ids_of cs) done);
      }

  contributions_of-IsGrounded :
      (x : WorkUnitExecutionResult) (cs : List CandidateFinding)
      → All (IsGrounded r) (contributions_of t r x cs)
  unfolding contributions_of
  contributions_of-IsGrounded x [] = tt
  contributions_of-IsGrounded x (c ∷ cs) = (refl, contributions_of-IsGrounded x cs)

  pub contributions-IsGrounded :
      (xs : List WorkUnitExecutionResult) → All (IsGrounded r) (contributions t r xs)
  unfolding contributions
  contributions-IsGrounded [] = tt
  contributions-IsGrounded (x ∷ xs) =
      All-append (IsGrounded r) (contributions_of t r x x.candidates) (contributions t r xs)
        (contributions_of-IsGrounded x x.candidates) (contributions-IsGrounded xs)
