-- ===== src/Common/Lists.antt =====
-- Lists under Boolean tests: what a comprehension, `any`, `all`, `next` and a table's statements do.
use Prim.Native.Nat.{ℕ, zero, suc, ◌+◌, ◌≤◌}
use mathlib.Core.Path.{◌≡◌, refl, ap, ◌∙◌, subst}
use mathlib.Core.Bool.{Bool, true, false, ◌&&◌, ◌||◌}
use mathlib.Core.Logic.{inl, inr}
use mathlib.Core.Option
use mathlib.Core.Option.{Option, none, some}
use mathlib.Core.List.{List, [], ◌∷◌, ◌++◌}
use native.Mathlib.Omega.{arith}
use multi_agent_aidlc.Common.Tests.{if◌then◌else◌, leb, Bool-cases}

module _ {ℓ} {A : Type ℓ} where
  abbrev pub length : List A → ℕ
  length [] = 0
  length (x ∷ xs) = suc (length xs)

  abbrev pub take : ℕ → List A → List A
  take zero xs = []
  take (suc n) [] = []
  take (suc n) (x ∷ xs) = x ∷ take n xs

  -- `[x for x in xs if p(x)]`
  abbrev pub select : (A → Bool) → List A → List A
  select p [] = []
  select p (x ∷ xs) = let rest = select p xs in if p x then x ∷ rest else rest

  abbrev pub any : (A → Bool) → List A → Bool
  any p [] = false
  any p (x ∷ xs) = p x || any p xs

  abbrev pub all : (A → Bool) → List A → Bool
  all p [] = true
  all p (x ∷ xs) = p x && all p xs

  -- `next((x for x in xs if p(x)), None)`
  abbrev pub find : (A → Bool) → List A → Option A
  find p [] = none
  find p (x ∷ xs) = if p x then some x else find p xs

  abbrev or_later : Option A → Bool → A → Option A
  or_later (some y) b x = some y
  or_later none b x = if b then some x else none

  -- `next((x for x in reversed(xs) if p(x)), None)`
  abbrev pub find_last : (A → Bool) → List A → Option A
  find_last p [] = none
  find_last p (x ∷ xs) = or_later (find_last p xs) (p x) x

  -- `UPDATE ... WHERE p`
  abbrev pub update_where : (A → Bool) → (A → A) → List A → List A
  update_where p f [] = []
  update_where p f (x ∷ xs) = (if p x then f x else x) ∷ update_where p f xs

  abbrev pub is_empty : List A → Bool
  is_empty [] = true
  is_empty (x ∷ xs) = false

  -- A stable sort by a key, smallest first.
  abbrev pub insert_by : (A → ℕ) → A → List A → List A
  insert_by key x [] = x ∷ []
  insert_by key x (y ∷ ys) = if leb (key x) (key y) then x ∷ y ∷ ys else y ∷ insert_by key x ys

  abbrev pub sort_by : (A → ℕ) → List A → List A
  sort_by key [] = []
  sort_by key (x ∷ xs) = insert_by key x (sort_by key xs)

  -- The same, largest first.
  abbrev pub insert_desc : (A → ℕ) → A → List A → List A
  insert_desc key x [] = x ∷ []
  insert_desc key x (y ∷ ys) = if leb (key y) (key x) then x ∷ y ∷ ys else y ∷ insert_desc key x ys

  abbrev pub sort_desc : (A → ℕ) → List A → List A
  sort_desc key [] = []
  sort_desc key (x ∷ xs) = insert_desc key x (sort_desc key xs)

  -- Every element satisfies `P`; the predicate computes to a tuple.
  abbrev pub All {κ} : (A → Type κ) → List A → Type κ
  All P [] = Unit
  All P (x ∷ xs) = P x × All P xs

module _ {ℓ} {A : Type ℓ} where
  pub length-append : (xs ys : List A) → length (xs ++ ys) ≡ length xs + length ys
  length-append [] ys = omega arith
  length-append (x ∷ xs) ys = omega (arith, length-append xs ys)

  pub any-append : (p : A → Bool) (xs ys : List A) → any p (xs ++ ys) ≡ (any p xs || any p ys)
  any-append p [] ys = refl
  any-append p (x ∷ xs) ys = ground (arith, any-append p xs ys)

  pub select-append :
      (p : A → Bool) (xs ys : List A) → select p (xs ++ ys) ≡ select p xs ++ select p ys
  select-append p [] ys = refl
  select-append p (x ∷ xs) ys = ground (arith, select-append p xs ys)

  pub find-append_none :
      (p : A → Bool) (xs ys : List A) → any p xs ≡ false → find p (xs ++ ys) ≡ find p ys
  find-append_none p [] ys h = refl
  find-append_none p (x ∷ xs) ys h = ground (arith, find-append_none p xs ys)

  pub any_of_find : (p : A → Bool) (xs : List A) (x : A) → find p xs ≡ some x → any p xs ≡ true
  any_of_find p [] x h = cc
  any_of_find p (y ∷ ys) x h = ground (arith, any_of_find p ys x)

  pub find-none : (p : A → Bool) (xs : List A) → any p xs ≡ false → find p xs ≡ none
  find-none p [] h = refl
  find-none p (x ∷ xs) h = ground (arith, find-none p xs)

  -- The first match stays the first one if it is kept.
  pub find-select :
      (p q : A → Bool) (xs : List A) (x : A)
      → find p xs ≡ some x
      → q x ≡ true
      → find p (select q xs) ≡ some x
  find-select p q [] x h k = cc
  find-select p q (y ∷ ys) x h k = ground (arith, find-select p q ys x)

  pub find-append_some :
      (p : A → Bool) (xs ys : List A) (x : A) → find p xs ≡ some x → find p (xs ++ ys) ≡ some x
  find-append_some p [] ys x h = cc
  find-append_some p (z ∷ zs) ys x h = ground (arith, find-append_some p zs ys x)

  pub length-select-select :
      (p q : A → Bool) (xs : List A) → length (select p (select q xs)) ≤ length (select p xs)
  length-select-select p q [] = omega arith
  length-select-select p q (x ∷ xs) = ground (arith, length-select-select p q xs)

  pub select-select_comm :
      (p q : A → Bool) (xs : List A) → select p (select q xs) ≡ select q (select p xs)
  select-select_comm p q [] = refl
  select-select_comm p q (x ∷ xs) = ground (arith, select-select_comm p q xs)

  -- Elements that pass one test and must fail the other are all dropped.
  pub select-select_disjoint :
      (p q : A → Bool) (xs : List A)
      → ((x : A) → p x ≡ true → q x ≡ false)
      → select p (select q xs) ≡ []
  select-select_disjoint p q [] h = refl
  select-select_disjoint p q (x ∷ xs) h = ground (arith, h x, select-select_disjoint p q xs h)

  pub select_none : (p : A → Bool) (xs : List A) → any p xs ≡ false → select p xs ≡ []
  select_none p [] h = refl
  select_none p (x ∷ xs) h = ground (arith, select_none p xs)

  -- An element that fails the test may be dropped from the end.
  pub find-append_fail :
      (p : A → Bool) (xs : List A) (y : A) → p y ≡ false → find p (xs ++ y ∷ []) ≡ find p xs
  find-append_fail p [] y h = rw h
  find-append_fail p (x ∷ xs) y h = ground (arith, find-append_fail p xs y)

  pub length-update_where :
      (p : A → Bool) (f : A → A) (xs : List A) → length (update_where p f xs) ≡ length xs
  length-update_where p f [] = refl
  length-update_where p f (x ∷ xs) = ap suc (length-update_where p f xs)

module _ {ℓ κ} {A : Type ℓ} (P : A → Type κ) where
  pub All-append : (xs ys : List A) → All P xs → All P ys → All P (xs ++ ys)
  All-append [] ys hx hy = hy
  All-append (x ∷ xs) ys hx hy = (hx.0, All-append xs ys hx.1 hy)

  pub All-select : (p : A → Bool) (xs : List A) → All P xs → All P (select p xs)
  All-select p [] h = tt
  All-select p (x ∷ xs) h = ground (arith, All-select p xs h.1)

module _ {ℓ κ} {A : Type ℓ} (P : A → Type κ) where
  -- What two selections leave satisfies what both tests give.
  pub All-select-select :
      (p q : A → Bool) (xs : List A)
      → ((x : A) → p x ≡ true → q x ≡ true → P x)
      → All P (select p (select q xs))
  All-select-select p q [] f = tt
  All-select-select p q (x ∷ xs) f = elim (Bool-cases (q x)) [
    | inl kept ↦ rw kept (elim (Bool-cases (p x)) [
      | inl here ↦ rw here (f x here kept, All-select-select p q xs f)
      | inr out ↦ rw out (All-select-select p q xs f)
    ])
    | inr dropped ↦ rw dropped (All-select-select p q xs f)
  ]

module _ {ℓ κ μ} {A : Type ℓ} (P : A → Type κ) (Q : A → Type μ) where
  pub All-mono : (xs : List A) → ((x : A) → P x → Q x) → All P xs → All Q xs
  All-mono [] f h = tt
  All-mono (x ∷ xs) f h = (f x h.0, All-mono xs f h.1)

  -- What an update makes of a property, for the elements that it changes and for the others.
  pub All-update_where :
      (p : A → Bool) (f : A → A) (xs : List A)
      → ((x : A) → P x → p x ≡ true → Q (f x))
      → ((x : A) → P x → p x ≡ false → Q x)
      → All P xs
      → All Q (update_where p f xs)
  All-update_where p f [] hit miss h = tt
  All-update_where p f (x ∷ xs) hit miss h =
      (step (p x) (hit x h.0) (miss x h.0), All-update_where p f xs hit miss h.1)
    where
      step : (b : Bool) → (b ≡ true → Q (f x)) → (b ≡ false → Q x) → Q (if b then f x else x)
      step true yes_x no_x = yes_x refl
      step false yes_x no_x = no_x refl

module _ {ℓ} {A : Type ℓ} where
  -- An update that does not change the test finds the same element, updated.
  pub find-update_where :
      (p q : A → Bool) (f : A → A) (xs : List A)
      → ((x : A) → p (f x) ≡ p x)
      → find p (update_where q f xs) ≡ Option.map (λ x. if q x then f x else x) (find p xs)
  find-update_where p q f [] keep = refl
  find-update_where p q f (x ∷ xs) keep = ground (arith, keep x, find-update_where p q f xs keep)

  -- An update that does not change the test does not change whether an element passes it.
  pub any-update_where :
      (p q : A → Bool) (f : A → A) (xs : List A)
      → ((x : A) → p (f x) ≡ p x)
      → any p (update_where q f xs) ≡ any p xs
  any-update_where p q f [] keep = refl
  any-update_where p q f (x ∷ xs) keep = ground (arith, keep x, any-update_where p q f xs keep)

  length-insert_desc :
      (key : A → ℕ) (x : A) (xs : List A) → length (insert_desc key x xs) ≡ suc (length xs)
  length-insert_desc key x [] = refl
  length-insert_desc key x (y ∷ ys) = ground (arith, length-insert_desc key x ys)

  pub length-sort_desc : (key : A → ℕ) (xs : List A) → length (sort_desc key xs) ≡ length xs
  length-sort_desc key [] = refl
  length-sort_desc key (x ∷ xs) =
      length-insert_desc key x (sort_desc key xs) ∙ ap suc (length-sort_desc key xs)

  any-insert_desc :
      (p : A → Bool) (key : A → ℕ) (x : A) (xs : List A)
      → any p (insert_desc key x xs) ≡ (p x || any p xs)
  any-insert_desc p key x [] = refl
  any-insert_desc p key x (y ∷ ys) = ground (arith, any-insert_desc p key x ys)

  pub any-sort_desc :
      (p : A → Bool) (key : A → ℕ) (xs : List A) → any p (sort_desc key xs) ≡ any p xs
  any-sort_desc p key [] = refl
  any-sort_desc p key (x ∷ xs) =
      any-insert_desc p key x (sort_desc key xs) ∙ ap (λ b. p x || b) (any-sort_desc p key xs)

  pub take_all : (n : ℕ) (xs : List A) → length xs ≤ n → take n xs ≡ xs
  take_all zero [] h = refl
  take_all zero (x ∷ xs) h = absurd (omega arith)
  take_all (suc n) [] h = refl
  take_all (suc n) (x ∷ xs) h = ap (λ ys. x ∷ ys) (take_all n xs (omega arith))

module _ {ℓ κ} {A : Type ℓ} (P : A → Type κ) where
  All-insert_desc :
      (key : A → ℕ) (x : A) (xs : List A) → P x → All P xs → All P (insert_desc key x xs)
  All-insert_desc key x [] h hs = (h, tt)
  All-insert_desc key x (y ∷ ys) h hs = step (All-insert_desc key x ys h hs.1) (leb (key y) (key x))
    where
      step :
          All P (insert_desc key x ys)
          → (b : Bool) → All P (if b then x ∷ y ∷ ys else y ∷ insert_desc key x ys)
      step rest true = (h, hs)
      step rest false = (hs.0, rest)

  pub All-sort_desc : (key : A → ℕ) (xs : List A) → All P xs → All P (sort_desc key xs)
  All-sort_desc key [] h = tt
  All-sort_desc key (x ∷ xs) h = All-insert_desc key x _ h.0 (All-sort_desc key xs h.1)

module _ {ℓ} {A : Type ℓ} where
  -- Writing one element over all that pass a test that the search implies finds that element.
  pub find-update_where_const :
      (p q : A → Bool) (y : A) (xs : List A) {x : A}
      → ((z : A) → q z ≡ false → p z ≡ false)
      → p y ≡ true
      → find p xs ≡ some x
      → find p (update_where q (λ _. y) xs) ≡ some y
  find-update_where_const p q y [] within here h = cc
  find-update_where_const p q y (z ∷ zs) {x} within here h =
      ground (arith, within z, find-update_where_const p q y zs {x = x} within here)

  -- Writing over elements that the search passes by changes nothing for it.
  pub find-update_where_apart :
      (p q : A → Bool) (y : A) (xs : List A)
      → ((z : A) → q z ≡ true → p z ≡ false)
      → p y ≡ false
      → find p (update_where q (λ _. y) xs) ≡ find p xs
  find-update_where_apart p q y [] apart away = refl
  find-update_where_apart p q y (z ∷ zs) apart away =
      ground (arith, apart z, find-update_where_apart p q y zs apart away)

  pub find_hit : (p : A → Bool) (x : A) (xs : List A) → p x ≡ true → find p (x ∷ xs) ≡ some x
  find_hit p x xs h = rw h

  pub test_of_find : (p : A → Bool) (xs : List A) (x : A) → find p xs ≡ some x → p x ≡ true
  test_of_find p [] x h = cc
  test_of_find p (y ∷ ys) x h = elim (Bool-cases (p y)) [
    | inl hit ↦ cc (hit, find_hit p y ys hit, h)
    | inr miss ↦ test_of_find p ys x (rw miss at h)
  ]

module _ {ℓ κ} {A : Type ℓ} (P : A → Type κ) where
  pub All-find : (p : A → Bool) (xs : List A) {x : A} → All P xs → find p xs ≡ some x → P x
  All-find p [] h e = cc
  All-find p (y ∷ ys) h e = elim (Bool-cases (p y)) [
    | inl hit ↦ subst P (cc (find_hit p y ys hit, e)) h.0
    | inr miss ↦ All-find p ys h.1 (rw miss at e)
  ]

module _ {ℓ} {A : Type ℓ} where
  -- An update of what the search finds, by which it is still found.
  pub find-update_where_hit :
      (p : A → Bool) (f : A → A) (xs : List A) {x : A}
      → ((z : A) → p z ≡ true → p (f z) ≡ true)
      → find p xs ≡ some x
      → find p (update_where p f xs) ≡ some (f x)
  find-update_where_hit p f [] keep h = cc
  find-update_where_hit p f (z ∷ zs) {x} keep h =
      ground (arith, keep z, find-update_where_hit p f zs {x = x} keep)

  -- An update of elements that the search passes by, before and after.
  pub find-update_where_miss :
      (p q : A → Bool) (f : A → A) (xs : List A)
      → ((z : A) → q z ≡ true → p z ≡ false)
      → ((z : A) → q z ≡ true → p (f z) ≡ false)
      → find p (update_where q f xs) ≡ find p xs
  find-update_where_miss p q f [] before after = refl
  find-update_where_miss p q f (z ∷ zs) before after =
      ground (arith, before z, after z, find-update_where_miss p q f zs before after)

  or_later-test :
      (p : A → Bool) (o : Option A) (y x : A)
      → ((z : A) → o ≡ some z → p z ≡ true)
      → or_later o (p y) y ≡ some x
      → p x ≡ true
  or_later-test p (some z) y x before h = before x h
  or_later-test p none y x before h = elim (Bool-cases (p y)) [
    | inl hit ↦ let same : y ≡ x = cc (rw hit at h) in subst (λ z. p z ≡ true) same hit
    | inr miss ↦ cc (rw miss at h)
  ]

  pub test_of_find_last :
      (p : A → Bool) (xs : List A) (x : A) → find_last p xs ≡ some x → p x ≡ true
  test_of_find_last p [] x h = cc h
  test_of_find_last p (y ∷ ys) x h =
      or_later-test p (find_last p ys) y x (λ z. test_of_find_last p ys z) h
