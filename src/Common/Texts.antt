-- ===== src/Common/Texts.antt =====
-- Go strings as lists of bytes. `text` reads a literal, which is ASCII here.
use Prim.Native.Nat.{ℕ}
use Prim.Native.Char.{code}
use Prim.Native.String.{String}
use mathlib.Core.Path.{◌≡◌, refl}
use mathlib.Core.List.{List, [], ◌∷◌}
use native.Mathlib.Decide.{ℕ_discrete}

abbrev pub Text : Type 0
Text = List ℕ

abbrev pub text : String → Text
text String.[] = []
text (String.◌∷◌ c s) = code c ∷ text s

step_dec : (a b : ℕ) (s t : Text) → Dec (a ≡ b) → Dec (s ≡ t) → Dec (a ∷ s ≡ b ∷ t)
step_dec a b s t (yes p) (yes q) = yes (cc)
step_dec a b s t (yes p) (no q) = no (λ e. q (cc))
step_dec a b s t (no p) r = no (λ e. p (cc))

-- `==` on strings, as a decision.
unfoldable pub text_dec : (s t : Text) → Dec (s ≡ t)
unfolding step_dec ℕ_discrete
text_dec [] [] = yes refl
text_dec [] (b ∷ t) = no (λ e. cc)
text_dec (a ∷ s) [] = no (λ e. cc)
text_dec (a ∷ s) (b ∷ t) = step_dec a b s t (ℕ_discrete a b) (text_dec s t)
