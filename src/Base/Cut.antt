-- ===== src/Base/Cut.antt =====
-- Texts that are cut short.
use Prim.Native.String.{String, [], ◌∷◌, ◌++◌}
use mathlib.Core.Path.{◌≡◌, refl, sym, ap, ◌∙◌}
use mathlib.Core.Logic.{◌≢◌, ◌⊎◌, inl, inr}
use text.Mathlib.TextLemmas.{
  cons-append, nil-append, append-eq-nil_iff, cons≢nil, head-eq_of_cons-eq, tail-eq_of_cons-eq,
}

pub empty-cases : (s : String) → (s ≡ "") ⊎ (s ≢ "")
empty-cases [] = inl refl
empty-cases (c ∷ s) = inr (λ h. cons≢nil h)

-- What stands before a part that is left out of a line with its end is, unless that part is empty, a
-- front part of the line.
pub cut_line :
    (a rest line : String) → a ++ rest ≡ line ++ "\n" → rest ≢ "" → (c : String) × (a ++ c ≡ line)
cut_line [] rest line h full = (line, nil-append line)
cut_line (x ∷ a) rest [] h full = absurd (
    full
      ((append-eq-nil_iff {p = a} {q = rest}).0
        (tail-eq_of_cons-eq (sym (cons-append x a rest) ∙ h))).1)
cut_line (x ∷ a) rest (y ∷ line) h full =
    let both = sym (cons-append x a rest) ∙ h ∙ cons-append y line "\n" in
    let (c, same) = cut_line a rest line (tail-eq_of_cons-eq both) full in
    (c, cons-append x a c ∙ ap (λ s. x ∷ s) same ∙ ap (λ z. z ∷ line) (head-eq_of_cons-eq both))

pub nothing_left : (a b : String) → a ++ b ≡ "" → (a ≡ "") × (b ≡ "")
nothing_left a b h = (append-eq-nil_iff {p = a} {q = b}).0 h
