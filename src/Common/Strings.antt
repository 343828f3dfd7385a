-- ===== src/Common/Strings.antt =====
-- What the program uses of Go's package `strings`, on byte lists with one-byte separators.
use Prim.Native.Nat.{ℕ, ◌+◌}
use mathlib.Core.Path.{◌≡◌, refl, ap}
use mathlib.Core.Logic.{◌≢◌, inl, inr}
use mathlib.Core.Bool.{Bool, true, false, ◌&&◌, ◌||◌}
use mathlib.Core.Option.{Option, none, some}
use mathlib.Core.List.{List, [], ◌∷◌, ◌++◌, map}
use mathlib.Core.HLevel.{×_prop}
use native.Mathlib.Omega.{arith}
use virtual_kubelet.Common.Tests.{◌==◌, leb, if◌then◌else◌, decided, Bool-cases, if-holds}
use virtual_kubelet.Common.Lists.{All}
use virtual_kubelet.Common.Texts.{Text, text_dec}

-- The text does not hold the byte.
abbrev pub Lacks : ℕ → Text → Type 0
Lacks b = All (λ c. c ≢ b)

abbrev pub grow : ℕ → List Text → List Text
grow c [] = (c ∷ []) ∷ []
grow c (p ∷ ps) = (c ∷ p) ∷ ps

-- `strings.Split`.
unfoldable pub split : Text → ℕ → List Text
split [] sep = [] ∷ []
split (c ∷ s) sep = let rest = split s sep in if c == sep then [] ∷ rest else grow c rest

-- `strings.Join`.
unfoldable pub join : List Text → ℕ → Text
join [] sep = []
join (p ∷ []) sep = p
join (p ∷ q ∷ ps) sep = p ++ sep ∷ join (q ∷ ps) sep

pub split-Lacks : (p : Text) (sep : ℕ) → Lacks sep p → split p sep ≡ p ∷ []
unfolding split
split-Lacks [] sep h = refl
split-Lacks (c ∷ p) sep h = ground (arith, split-Lacks p sep h.1)

pub split-append : (p s : Text) (sep : ℕ) → Lacks sep p → split (p ++ sep ∷ s) sep ≡ p ∷ split s sep
unfolding split
split-append [] s sep h = ground arith
split-append (c ∷ p) s sep h = ground (arith, split-append p s sep h.1)

pub Lacks-prop : (b : ℕ) (s : Text) → IsProp (Lacks b s)
Lacks-prop b [] = hlevel
Lacks-prop b (c ∷ s) = ×_prop (hlevel) (Lacks-prop b s)

join-grow : (c sep : ℕ) (ps : List Text) → join (grow c ps) sep ≡ c ∷ join ps sep
unfolding join
join-grow c sep [] = refl
join-grow c sep (p ∷ []) = refl
join-grow c sep (p ∷ q ∷ ps) = refl

pub split-cons : (s : Text) (sep : ℕ) → (p : Text) × (ps : List Text) × (split s sep ≡ p ∷ ps)
unfolding split
split-cons [] sep = ([], [], refl)
split-cons (c ∷ s) sep =
    let (p, ps, e) = split-cons s sep in
    elim (Bool-cases (c == sep)) [
      | inl hit ↦ ([], split s sep, ground arith)
      | inr miss ↦ (c ∷ p, ps, ground arith)
    ]

grow-All-Lacks :
    (c sep : ℕ) (ps : List Text) → c ≢ sep → All (Lacks sep) ps → All (Lacks sep) (grow c ps)
grow-All-Lacks c sep [] n h = ((n, tt), tt)
grow-All-Lacks c sep (p ∷ ps) n (l, h) = ((n, l), h)

-- No part holds the separator.
pub split-All-Lacks : (s : Text) (sep : ℕ) → All (Lacks sep) (split s sep)
unfolding split
split-All-Lacks [] sep = (tt, tt)
split-All-Lacks (c ∷ s) sep =
    if-holds (All (Lacks sep)) (c == sep) (λ hit. (tt, split-All-Lacks s sep))
      (λ miss.
        grow-All-Lacks c sep (split s sep) (λ e. ground (arith, miss, e)) (split-All-Lacks s sep))

pub join-split : (s : Text) (sep : ℕ) → join (split s sep) sep ≡ s
unfolding split join
join-split [] sep = refl
join-split (c ∷ s) sep =
    let (p, ps, e) = split-cons s sep in
    ground (arith, e, join-split s sep, join-grow c sep (split s sep))

pub split-append_last :
    (s t : Text) (sep : ℕ) → Lacks sep t → split (s ++ sep ∷ t) sep ≡ split s sep ++ t ∷ []
unfolding split
split-append_last [] t sep h = ground (arith, split-Lacks t sep h)
split-append_last (c ∷ s) t sep h =
    let (p, ps, e) = split-cons s sep in ground (arith, e, split-append_last s t sep h)

-- `parts[:len(parts)-1]`.
unfoldable pub drop_last : List Text → List Text
drop_last [] = []
drop_last (p ∷ []) = []
drop_last (p ∷ q ∷ ps) = p ∷ drop_last (q ∷ ps)

pub drop_last-append : (ps : List Text) (t : Text) → drop_last (ps ++ t ∷ []) ≡ ps
unfolding drop_last
drop_last-append [] t = refl
drop_last-append (p ∷ []) t = refl
drop_last-append (p ∷ q ∷ ps) t = ap (◌∷◌ p) (drop_last-append (q ∷ ps) t)

-- `s[:i]` and `s[i+1:]` for `i := strings.LastIndex(s, sep)`, if the separator is there.
unfoldable pub cut_last : Text → ℕ → Option (Text × Text)
cut_last [] sep = none
cut_last (c ∷ s) sep = elim (cut_last s sep) [
  | some (before, after) ↦ some (c ∷ before, after)
  | none ↦ if c == sep then some ([], s) else none
]

cut_last-Lacks : (s : Text) (sep : ℕ) → Lacks sep s → cut_last s sep ≡ none
unfolding cut_last
cut_last-Lacks [] sep h = refl
cut_last-Lacks (c ∷ s) sep h = ground (arith, cut_last-Lacks s sep h.1)

pub cut_last-append :
    (s t : Text) (sep : ℕ) → Lacks sep t → cut_last (s ++ sep ∷ t) sep ≡ some (s, t)
unfolding cut_last
cut_last-append [] t sep h = ground (arith, cut_last-Lacks t sep h)
cut_last-append (c ∷ s) t sep h = ground (arith, cut_last-append s t sep h)

-- `strings.HasPrefix`, `strings.Contains` and `strings.HasSuffix`.
unfoldable pub has_prefix : Text → Text → Bool
has_prefix s [] = true
has_prefix [] (p ∷ ps) = false
has_prefix (c ∷ s) (p ∷ ps) = c == p && has_prefix s ps

unfoldable pub contains : Text → Text → Bool
unfolding has_prefix
contains [] sub = has_prefix [] sub
contains (c ∷ s) sub = has_prefix (c ∷ s) sub || contains s sub

unfoldable pub has_suffix : Text → Text → Bool
has_suffix [] end = decided (text_dec [] end)
has_suffix (c ∷ s) end = decided (text_dec (c ∷ s) end) || has_suffix s end

-- `strings.EqualFold` on ASCII.
unfoldable pub to_lower : ℕ → ℕ
to_lower c = if leb b'A' c && leb c b'Z' then c + 32 else c

unfoldable pub equal_fold : Text → Text → Bool
unfolding to_lower
equal_fold s t = decided (text_dec (map to_lower s) (map to_lower t))
