-- ===== src/Vector.antt =====
-- A std::vector of pointers: its last element, and the removal of an element that puts the last one
-- in its place.
use iocpserver.Prelude.{
  ℕ, ◌+◌, ◌≡◌, refl, ap, ◌∙◌, inl, inr, Bool, true, false, ◌||◌, Option, none, some, List, [], ◌∷◌,
  ◌++◌, ◌==◌, if◌then◌else◌, arith, Bool-cases, ==_iff, ◌<◌,
}

-- The elements before `back()`, and `back()`.
unfoldable pub snoc_of : ℕ → Option (List ℕ × ℕ) → List ℕ × ℕ
snoc_of x none = ([], x)
snoc_of x (some (ys, y)) = (x ∷ ys, y)

unfoldable pub unsnoc : List ℕ → Option (List ℕ × ℕ)
unfolding snoc_of
unsnoc [] = none
unsnoc (x ∷ xs) = some (snoc_of x (unsnoc xs))

-- std::find
unfoldable pub contains : ℕ → List ℕ → Bool
contains p [] = false
contains p (x ∷ xs) = (x == p) || contains p xs

unfoldable pub replace : ℕ → ℕ → List ℕ → List ℕ
replace p y [] = []
replace p y (x ∷ xs) = if x == p then y ∷ xs else x ∷ replace p y xs

unfoldable pub pop_last : Option (List ℕ × ℕ) → List ℕ
pop_last none = []
pop_last (some (ys, y)) = ys

unfoldable pub swap_with : ℕ → List ℕ → Option (List ℕ × ℕ) → List ℕ
unfolding pop_last
swap_with p xs none = xs
swap_with p xs (some (ys, y)) = pop_last (unsnoc (replace p y xs))

-- *it = m_Users.back(); m_Users.pop_back();
unfoldable pub swap_out : ℕ → List ℕ → List ℕ
unfolding swap_with
swap_out p xs = swap_with p xs (unsnoc xs)

-- How often an element stands in a list.
unfoldable pub occurs : ℕ → List ℕ → ℕ
occurs p [] = 0
occurs p (x ∷ xs) = (if x == p then 1 else 0) + occurs p xs

pub occurs-append : (p : ℕ) (xs ys : List ℕ) → occurs p (xs ++ ys) ≡ occurs p xs + occurs p ys
unfolding occurs
occurs-append p [] ys = omega arith
occurs-append p (x ∷ xs) ys = omega (arith, occurs-append p xs ys)

-- A list that is not empty is what stands before its last element, and that element.
pub unsnoc_lem :
    (x : ℕ) (xs : List ℕ)
    → (ys : List ℕ) × (y : ℕ) × (unsnoc (x ∷ xs) ≡ some (ys, y)) × (x ∷ xs ≡ ys ++ (y ∷ []))
unfolding unsnoc snoc_of
unsnoc_lem x [] = ([], x, refl, refl)
unsnoc_lem x (x' ∷ xs) =
    let (ys, y, e, split) = unsnoc_lem x' xs in
    (x ∷ ys, y, ap (λ o. some (snoc_of x o)) e, ap (◌∷◌ x) split)

pub unsnoc-append : (ys : List ℕ) (y : ℕ) → unsnoc (ys ++ (y ∷ [])) ≡ some (ys, y)
unfolding unsnoc snoc_of
unsnoc-append [] y = refl
unsnoc-append (x ∷ ys) y = ap (λ o. some (snoc_of x o)) (unsnoc-append ys y)

pub contains-occurs : (p : ℕ) (xs : List ℕ) → contains p xs ≡ true → 0 < occurs p xs
unfolding contains occurs
contains-occurs p [] h = cc
contains-occurs p (x ∷ xs) h = elim (Bool-cases (x == p)) [
  | inl hit ↦ rw hit (omega arith)
  | inr miss ↦ rw miss (omega (arith, contains-occurs p xs (rw miss at h)))
]

pub contains-occurs_not : (p : ℕ) (xs : List ℕ) → contains p xs ≡ false → occurs p xs ≡ 0
unfolding contains occurs
contains-occurs_not p [] h = refl
contains-occurs_not p (x ∷ xs) h = elim (Bool-cases (x == p)) [
  | inl hit ↦ cc (rw hit at h)
  | inr miss ↦ rw miss (omega (arith, contains-occurs_not p xs (rw miss at h)))
]

-- Replacing an element by `y` changes the counts of these two only.
occurs-replace :
    (p y q : ℕ) (xs : List ℕ)
    → contains p xs ≡ true
    → occurs q (replace p y xs) + (if p == q then 1 else 0)
      ≡ occurs q xs + (if y == q then 1 else 0)
unfolding contains occurs replace
occurs-replace p y q [] h = cc
occurs-replace p y q (x ∷ xs) h = elim (Bool-cases (x == p)) [
  | inl hit ↦ rw (hit, (==_iff x p).0 hit) (omega arith)
  | inr miss ↦ rw miss (omega (arith, occurs-replace p y q xs (rw miss at h)))
]

replace-append :
    (p y : ℕ) (ys : List ℕ) → (r : List ℕ) × (replace p y (ys ++ (y ∷ [])) ≡ r ++ (y ∷ []))
unfolding replace
replace-append p y [] = elim (Bool-cases (y == p)) [
  | inl hit ↦ ([], rw hit)
  | inr miss ↦ ([], rw miss)
]
replace-append p y (x ∷ ys) = elim (Bool-cases (x == p)) [
  | inl hit ↦ (y ∷ ys, rw hit)
  | inr miss ↦ let (r, e) = replace-append p y ys in (x ∷ r, rw miss (ap (◌∷◌ x) e))
]

-- Swapping an element out takes one occurrence of it away and keeps every other.
pub occurs-swap_out :
    (p q : ℕ) (xs : List ℕ)
    → contains p xs ≡ true
    → occurs q (swap_out p xs) + (if p == q then 1 else 0) ≡ occurs q xs
occurs-swap_out p q [] h = absurd (unfold contains in cc h)
occurs-swap_out p q (x ∷ xs) h =
    let (ys, y, e, split) = unsnoc_lem x xs in
    let (r, again) = replace-append p y ys in
    let swapped : swap_out p (x ∷ xs) ≡ r = out ys y r e (ap (replace p y) split ∙ again) in
    omega (
      arith,
      ap (occurs q) swapped,
      occurs-replace p y q (x ∷ xs) h,
      ap (occurs q) (ap (replace p y) split ∙ again),
      occurs-append q r (y ∷ []),
      last y,
    )
  where
    last : (y : ℕ) → occurs q (y ∷ []) ≡ (if y == q then 1 else 0)
    last y = unfold occurs in omega arith

    out :
        (ys : List ℕ) (y : ℕ) (r : List ℕ)
        → unsnoc (x ∷ xs) ≡ some (ys, y)
        → replace p y (x ∷ xs) ≡ r ++ (y ∷ [])
        → swap_out p (x ∷ xs) ≡ r
    out ys y r e again = start ∙ middle ∙ ap pop_last (unsnoc-append r y) ∙ final
      where
        start : swap_out p (x ∷ xs) ≡ swap_with p (x ∷ xs) (some (ys, y))
        start = unfold swap_out in ap (swap_with p (x ∷ xs)) e

        middle : swap_with p (x ∷ xs) (some (ys, y)) ≡ pop_last (unsnoc (r ++ (y ∷ [])))
        middle = unfold swap_with in ap (λ zs. pop_last (unsnoc zs)) again

        final : pop_last (some (r, y)) ≡ r
        final = unfold pop_last in refl
