-- ===== src/Prelude/Patches.antt =====
-- Fields written one after the other into a record of bytes, and what is then read at each.
use Prim.Native.Nat.{ℕ, ◌+◌, ◌≤◌}
use mathlib.Core.Path.{◌≡◌, refl, ◌∙◌}
use mathlib.Core.Bool.{Bool, true, ◌&&◌, ◌||◌}
use mathlib.Core.Logic.{inl, inr}
use mathlib.Core.Option.{Option, none, some}
use mathlib.Core.List.{List, [], ◌∷◌, ◌++◌}
use native.Mathlib.Omega.{arith}
use oxinode.Prelude.Tests.{leb, Bool-cases}
use oxinode.Prelude.Lists.{length}
use oxinode.Prelude.Slices.{write_at, length-write_at}
use oxinode.Prelude.Fields.{slice, slice-write_at_before, slice-write_at_after, slice-write_at_self}

-- A field: where it starts, how long it is, and its bytes, if they are written at all.
abbrev pub Patch : Type 0
Patch = ℕ × ℕ × Option (List ℕ)

abbrev pub patch : Patch → List ℕ → List ℕ
patch (at, n, none) xs = xs
patch (at, n, some ys) xs = write_at at ys xs

unfoldable pub patch_all : List Patch → List ℕ → List ℕ
patch_all [] xs = xs
patch_all (p ∷ ps) xs = patch_all ps (patch p xs)

-- A field that has its length and lies within `size` bytes.
abbrev pub Fits : ℕ → Patch → Type 0
Fits size (at, n, none) = Unit
Fits size (at, n, some ys) = (length ys ≡ n) × (at + n ≤ size)

unfoldable pub AllFit : ℕ → List Patch → Type 0
AllFit size [] = Unit
AllFit size (p ∷ ps) = Fits size p × AllFit size ps

-- Whether no field overlaps the `n` bytes from `i` on.
unfoldable pub clear : ℕ → ℕ → List Patch → Bool
clear i n [] = true
clear i n ((at, m, ys) ∷ ps) = (leb (i + n) at || leb (at + m) i) && clear i n ps

length-patch :
    (size : ℕ) (p : Patch) (xs : List ℕ)
    → length xs ≡ size
    → Fits size p
    → length (patch p xs) ≡ size
length-patch size (at, n, none) xs h f = h
length-patch size (at, n, some ys) xs h f = length-write_at at ys xs (omega arith) ∙ h

pub length-patch_all :
    (size : ℕ) (ps : List Patch) (xs : List ℕ)
    → length xs ≡ size
    → AllFit size ps
    → length (patch_all ps xs) ≡ size
unfolding patch_all AllFit
length-patch_all size [] xs h f = h
length-patch_all size (p ∷ ps) xs h (f, fs) =
    length-patch_all size ps (patch p xs) (length-patch size p xs h f) fs

slice-patch :
    (size i n : ℕ) (p : Patch) (xs : List ℕ)
    → length xs ≡ size
    → Fits size p
    → clear i n (p ∷ []) ≡ true
    → slice i n (patch p xs) ≡ slice i n xs
unfolding clear
slice-patch size i n (at, m, none) xs h f c = refl
slice-patch size i n (at, m, some ys) xs h f c = elim (Bool-cases (leb (i + n) at)) [
  | inl before ↦ slice-write_at_before i n at ys xs (ground arith) (omega arith)
  | inr after ↦ slice-write_at_after i n at ys xs (ground arith) (omega arith)
]

pub slice-patch_all :
    (size i n : ℕ) (ps : List Patch) (xs : List ℕ)
    → length xs ≡ size
    → AllFit size ps
    → clear i n ps ≡ true
    → slice i n (patch_all ps xs) ≡ slice i n xs
unfolding patch_all AllFit clear
slice-patch_all size i n [] xs h f c = refl
slice-patch_all size i n (p ∷ ps) xs h (f, fs) c =
    slice-patch_all size i n ps (patch p xs) (length-patch size p xs h f) fs (ground arith)
    ∙ slice-patch size i n p xs h f (ground arith)

-- A field that no later one overlaps is read back.
slice-patch_all_first :
    (size i n : ℕ) (ys : List ℕ) (ps : List Patch) (xs : List ℕ)
    → length xs ≡ size
    → AllFit size ((i, n, some ys) ∷ ps)
    → clear i n ps ≡ true
    → slice i n (patch_all ((i, n, some ys) ∷ ps) xs) ≡ ys
unfolding patch_all AllFit
slice-patch_all_first size i n ys ps xs h (f, fs) c =
    slice-patch_all size i n ps (write_at i ys xs) (length-patch size (i, n, some ys) xs h f) fs c
    ∙ slice-write_at_self i n ys xs f.0 (omega arith)

pub slice-patch_all_at :
    (size i n : ℕ) (ys : List ℕ) (before after : List Patch) (xs : List ℕ)
    → length xs ≡ size
    → AllFit size (before ++ ((i, n, some ys) ∷ after))
    → clear i n after ≡ true
    → slice i n (patch_all (before ++ ((i, n, some ys) ∷ after)) xs) ≡ ys
unfolding patch_all AllFit
slice-patch_all_at size i n ys [] after xs h f c = slice-patch_all_first size i n ys after xs h f c
slice-patch_all_at size i n ys (p ∷ before) after xs h (f, fs) c =
    slice-patch_all_at size i n ys before after (patch p xs) (length-patch size p xs h f) fs c
