-- ===== src/Input/Slices.antt =====
-- The slices that the lines of a hunk refer to.
use mathlib.Core.Path.{subst}
use cr_agent.Prelude.{
  ℕ, ◌+◌, ◌≡◌, refl, sym, ◌∙◌, ap, some, [], ◌∷◌, ◌++◌, length, All, All-append, arith, inl, inr,
  ◌⊎◌,
}
use cr_agent.Prelude.Text.{Text}
use cr_agent.Input.Models.{Line}
use cr_agent.Input.Lines.{PhysicalLine}
use cr_agent.Input.Hunks.{HunkState, line_type_of, draft}
use cr_agent.Input.Valid.{Took}
use cr_agent.Input.Offsets.{Lies}

-- The slice of the line is a text of the content, right behind a prefix that says the line's type.
pub record Sliced (content : Text) (l : Line) : Type 0 where
  pub before : Text
  pub prefix : ℕ
  pub text : Text
  pub after : Text
  pub content_is : content ≡ before ++ (prefix ∷ (text ++ after))
  pub prefix_is : line_type_of prefix ≡ some l.line_type
  pub start_is : l.content_start ≡ length before + 1
  pub end_is : l.content_end ≡ l.content_start + length text

abbrev pub DraftsSliced : Text → HunkState → Type 0
DraftsSliced content st = All (Sliced content) st.drafts

pub Took-DraftsSliced :
    (content : Text) (l : PhysicalLine) (st st' : HunkState)
    → Lies content l
    → DraftsSliced content st
    → (st' ≡ st) ⊎ Took l st st'
    → DraftsSliced content st'
Took-DraftsSliced content l st st' h d (inl e) = subst (DraftsSliced content) (sym e) d
Took-DraftsSliced content l st st' h d (inr t) =
    subst (DraftsSliced content) (sym t.result_is)
      (All-append (Sliced content) st.drafts (new ∷ []) d (sliced, tt))
  where
    new : Line
    new = draft t.line_type l.start (length t.content) st

    sliced : Sliced content new
    sliced = record {
      before = h.before;
      prefix = t.prefix;
      text = t.content;
      after = h.after;
      content_is = h.content_is ∙ ap (λ b. h.before ++ (b ++ h.after)) t.body_is;
      prefix_is = t.type_is;
      start_is = omega (arith, h.start_is);
      end_is = refl;
    }
