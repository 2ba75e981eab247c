-- ===== src/Findings/Order.antt =====
-- The order of the findings keeps their fingerprints, sources and properties.
use mathlib.Core.List.{Perm, perm_append_comm}
use mathlib.Core.List.Perm
use cr_agent.Prelude.{
  true, ◌||◌, ◌≡◌, refl, sym, ◌∙◌, ap, List, [], ◌∷◌, ◌++◌, append_assoc, All, Bool-cases, inl, inr,
  arith,
}
use cr_agent.Prelude.Text.{Text, text_eq, text_eq_sym}
use cr_agent.Prelude.Sorting.{key_leb, insert, sorted}
use cr_agent.Planning.Models.{contains, unique}
use cr_agent.Findings.Models.{FinalFinding}
use cr_agent.Findings.Processor.{fingerprints}

abbrev pub sources : List FinalFinding → List Text
sources [] = []
sources (f ∷ fs) = f.source_candidate_ids ++ sources fs

module _ (key : FinalFinding → List Text) where
  pub insert-contains :
      (x : Text) (f : FinalFinding) (fs : List FinalFinding)
      → contains x (fingerprints (insert key f fs))
        ≡ (text_eq x f.fingerprint || contains x (fingerprints fs))
  insert-contains x f [] = refl
  insert-contains x f (g ∷ gs) = elim (Bool-cases (key_leb (key f) (key g))) [
    | inl e ↦ rw e refl
    | inr e ↦ rw e (ground (arith, insert-contains x f gs))
  ]

  pub insert-unique :
      (f : FinalFinding) (fs : List FinalFinding)
      → unique (fingerprints (f ∷ fs)) ≡ true
      → unique (fingerprints (insert key f fs)) ≡ true
  insert-unique f [] h = refl
  insert-unique f (g ∷ gs) h = elim (Bool-cases (key_leb (key f) (key g))) [
    | inl e ↦ rw e h
    | inr e ↦ rw e (
        ground (
          arith,
          insert-contains g.fingerprint f gs,
          insert-unique f gs,
          text_eq_sym f.fingerprint g.fingerprint,
        ))
  ]

  pub sorted-contains :
      (x : Text) (fs : List FinalFinding)
      → contains x (fingerprints (sorted key fs)) ≡ contains x (fingerprints fs)
  unfolding sorted
  sorted-contains x [] = refl
  sorted-contains x (f ∷ fs) =
      insert-contains x f (sorted key fs)
      ∙ ap (λ b. text_eq x f.fingerprint || b) (sorted-contains x fs)

  pub sorted-unique :
      (fs : List FinalFinding)
      → unique (fingerprints fs) ≡ true
      → unique (fingerprints (sorted key fs)) ≡ true
  unfolding sorted
  sorted-unique [] h = refl
  sorted-unique (f ∷ fs) h =
      insert-unique f (sorted key fs)
        (ground (arith, sorted-contains f.fingerprint fs, sorted-unique fs))

  pub insert-sources :
      (f : FinalFinding) (fs : List FinalFinding)
      → Perm (sources (insert key f fs)) (sources (f ∷ fs))
  insert-sources f [] = Perm.refl (sources (f ∷ []))
  insert-sources f (g ∷ gs) = elim (Bool-cases (key_leb (key f) (key g))) [
    | inl e ↦ rw e (Perm.refl (sources (f ∷ g ∷ gs)))
    | inr e ↦ rw e (
        Perm.trans (Perm.append_left g.source_candidate_ids (insert-sources f gs)) (
          rw
            (
              sym (append_assoc g.source_candidate_ids f.source_candidate_ids (sources gs)),
              sym (append_assoc f.source_candidate_ids g.source_candidate_ids (sources gs)),
            )
            (Perm.append_right (sources gs)
              (perm_append_comm g.source_candidate_ids f.source_candidate_ids))))
  ]

  pub sorted-sources : (fs : List FinalFinding) → Perm (sources (sorted key fs)) (sources fs)
  unfolding sorted
  sorted-sources [] = Perm.refl []
  sorted-sources (f ∷ fs) =
      Perm.trans (insert-sources f (sorted key fs))
        (Perm.append_left f.source_candidate_ids (sorted-sources fs))

  pub insert-All :
      (P : FinalFinding → Type 0) (f : FinalFinding) (fs : List FinalFinding)
      → P f
      → All P fs
      → All P (insert key f fs)
  insert-All P f [] h g = (h, tt)
  insert-All P f (x ∷ fs) h g = elim (Bool-cases (key_leb (key f) (key x))) [
    | inl e ↦ rw e (h, g)
    | inr e ↦ rw e (g.0, insert-All P f fs h g.1)
  ]

  pub sorted-All :
      (P : FinalFinding → Type 0) (fs : List FinalFinding) → All P fs → All P (sorted key fs)
  unfolding sorted
  sorted-All P [] h = tt
  sorted-All P (f ∷ fs) h = insert-All P f (sorted key fs) h.0 (sorted-All P fs h.1)
