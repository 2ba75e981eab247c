-- ===== src/Trace/Numbered.antt =====
-- The numbers that `commit` gives.
use mathlib.Core.Path.{subst}
use cr_agent.Prelude.{
  ℕ, ◌+◌, String, true, false, ◌≡◌, refl, Option, none, some, List, [], ◌∷◌, ◌++◌, length, arith,
  Bool-cases, inl, inr, ◌==◌,
}
use cr_agent.Prelude.Exec.{Result, ok, err}
use cr_agent.Trace.Models.{Error, TraceEventDraft, TraceEventEnvelope}
use cr_agent.Trace.Service.{envelopes, envelope, joined, refused}
use cr_agent.Trace.Links.{numbered}

eqb_refl : (n : ℕ) → (n == n) ≡ true
eqb_refl n = ground arith

pub numbered-append :
    (n k : ℕ) (xs ys : List TraceEventEnvelope)
    → numbered n xs ≡ true
    → length xs + n ≡ k
    → numbered k ys ≡ true
    → numbered n (xs ++ ys) ≡ true
unfolding numbered
numbered-append n k [] ys h e g =
    let e' : k ≡ n = omega (arith, e) in subst (λ m. numbered m ys ≡ true) e' g
numbered-append n k (x ∷ xs) ys h e g = elim (Bool-cases (x.sequence == n)) [
  | inr q ↦ let broken : false ≡ true = (rw q at h) in cc broken
  | inl q ↦ rw q (numbered-append (n + 1) k xs ys (rw q at h) (omega (arith, e)) g)
]

-- A list that is returned is numbered.
abbrev pub IsNumbered : ℕ → Result Error (List TraceEventEnvelope) → Type 0
IsNumbered n (ok es) = numbered n es ≡ true
IsNumbered n (err e) = Unit

module _ (validate : TraceEventDraft → List TraceEventEnvelope → Option Error) (now : ℕ)
    (event_ids key_ids : ℕ → String) where
  joined-IsNumbered :
      (n : ℕ) (o : Option Error) (e : TraceEventEnvelope)
      (r : Result Error (List TraceEventEnvelope))
      → e.sequence ≡ n
      → IsNumbered (n + 1) r
      → IsNumbered n (joined validate now event_ids key_ids o e r)
  unfolding numbered
  joined-IsNumbered n (some x) e r h ih = tt
  joined-IsNumbered n none e (err x) h ih = tt
  joined-IsNumbered n none e (ok es) h ih = rw h (rw (eqb_refl n) ih)

  pub envelopes-IsNumbered :
      (task_id : String) (facts : List TraceEventDraft) (predecessors : List TraceEventEnvelope)
      (n : ℕ)
      → IsNumbered n (envelopes validate now event_ids key_ids task_id facts predecessors n)
  unfolding numbered
  envelopes-IsNumbered task_id [] predecessors n = refl
  envelopes-IsNumbered task_id (fact ∷ facts) predecessors n =
      let e = envelope validate now event_ids key_ids task_id n fact in
      let ps = predecessors ++ (e ∷ []) in
      joined-IsNumbered n (refused validate now event_ids key_ids fact predecessors) e
        (envelopes validate now event_ids key_ids task_id facts ps (n + 1)) refl
        (envelopes-IsNumbered task_id facts ps (n + 1))
