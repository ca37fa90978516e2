-- ===== src/Base/Texts.antt =====
-- Lists of texts: membership as a Boolean test, and Go's `sort.Strings`.
use Prim.Native.Nat.{Ordering}
use Prim.Native.String.{String, compare}
use mathlib.Core.Path.{◌≡◌, refl, ap, ◌∙◌}
use mathlib.Core.Bool.{Bool, true, false, ◌||◌}
use mathlib.Core.List.{List, [], ◌∷◌, ◌++◌}
use native.Mathlib.Omega.{arith}
use text.Mathlib.Text.{◌==◌ as str_eq}
use villa_straylight.Base.Tests.{if◌then◌else◌}
use villa_straylight.Base.Lists.{is_empty}

abbrev pub occurs : String → List String → Bool
occurs s [] = false
occurs s (t ∷ ts) = str_eq t s || occurs s ts

pub occurs-append :
    (s : String) (xs ys : List String) → occurs s (xs ++ ys) ≡ (occurs s xs || occurs s ys)
occurs-append s [] ys = refl
occurs-append s (x ∷ xs) ys = ground (arith, occurs-append s xs ys)

abbrev leb_text : String → String → Bool
leb_text s t = elim (compare s t) [ Ordering.gt ↦ false | _ ↦ true ]

unfoldable pub insert_text : String → List String → List String
insert_text s [] = s ∷ []
insert_text s (t ∷ ts) =
    let later = insert_text s ts in if leb_text s t then s ∷ t ∷ ts else t ∷ later

-- `sort.Strings`, as an insertion sort.
unfoldable pub sort_texts : List String → List String
sort_texts [] = []
sort_texts (s ∷ ss) = insert_text s (sort_texts ss)

occurs-if :
    (s : String) (b : Bool) (xs ys : List String) (c : Bool)
    → occurs s xs ≡ c
    → occurs s ys ≡ c
    → occurs s (if b then xs else ys) ≡ c
occurs-if s true xs ys c h k = h
occurs-if s false xs ys c h k = k

occurs-insert :
    (s x : String) (ts : List String) → occurs s (insert_text x ts) ≡ (str_eq x s || occurs s ts)
unfolding insert_text
occurs-insert s x [] = refl
occurs-insert s x (t ∷ ts) =
    occurs-if s (leb_text x t) _ _ _ refl (ground (arith, occurs-insert s x ts))

-- Sorting neither adds nor drops a text.
pub occurs-sort : (s : String) (ts : List String) → occurs s (sort_texts ts) ≡ occurs s ts
unfolding sort_texts
occurs-sort s [] = refl
occurs-sort s (t ∷ ts) =
    occurs-insert s t (sort_texts ts) ∙ ap (λ b. str_eq t s || b) (occurs-sort s ts)

is_empty-if :
    (b : Bool) (x y : String) (xs ys : List String)
    → is_empty (if b then x ∷ xs else y ∷ ys) ≡ false
is_empty-if true x y xs ys = refl
is_empty-if false x y xs ys = refl

is_empty-insert : (s : String) (ts : List String) → is_empty (insert_text s ts) ≡ false
unfolding insert_text
is_empty-insert s [] = refl
is_empty-insert s (t ∷ ts) = is_empty-if (leb_text s t) s t _ _

pub is_empty-sort : (ts : List String) → is_empty (sort_texts ts) ≡ is_empty ts
unfolding sort_texts
is_empty-sort [] = refl
is_empty-sort (t ∷ ts) = is_empty-insert t (sort_texts ts)
