-- ===== src/Prelude/Sort.antt =====
-- `sort.SliceStable`: a stable sort by a Boolean order.
use mathlib.Core.Path.{◌≡◌}
use mathlib.Core.Logic.{inl, inr}
use mathlib.Core.Bool.{Bool, true, false}
use mathlib.Core.List.{List, [], ◌∷◌, Perm}
use mathlib.Core.List.Perm
use gluetun_proton_list_upda.Prelude.Tests.{if◌then◌else◌, Bool-cases}
use gluetun_proton_list_upda.Prelude.Lists.{All}

module _ {ℓ} {A : Type ℓ} (less : A → A → Bool) where
  -- `x` stood before every element of the list, so it goes before the first that is not less: equal
  -- elements keep their order.
  unfoldable pub insert : A → List A → List A
  insert x [] = x ∷ []
  insert x (y ∷ ys) = if less y x then y ∷ insert x ys else x ∷ y ∷ ys

  unfoldable pub sort_stable : List A → List A
  sort_stable [] = []
  sort_stable (x ∷ xs) = insert x (sort_stable xs)

  -- no later element is less than an earlier one
  abbrev pub IsSorted : List A → Type 0
  IsSorted [] = Unit
  IsSorted (x ∷ xs) = All (λ y. less y x ≡ false) xs × IsSorted xs

  pub insert-perm : (x : A) (ys : List A) → Perm (insert x ys) (x ∷ ys)
  unfolding insert
  insert-perm x [] = Perm.refl (x ∷ [])
  insert-perm x (y ∷ ys) = elim (Bool-cases (less y x)) [
    | inl t ↦ rw t (Perm.trans (Perm.cons y (insert-perm x ys)) (Perm.swap x y ys))
    | inr f ↦ rw f (Perm.refl (x ∷ y ∷ ys))
  ]

  pub sort_stable-perm : (xs : List A) → Perm (sort_stable xs) xs
  unfolding sort_stable
  sort_stable-perm [] = Perm.refl []
  sort_stable-perm (x ∷ xs) =
      Perm.trans (insert-perm x (sort_stable xs)) (Perm.cons x (sort_stable-perm xs))

-- A strict order whose negation is transitive, on the elements that are good.
pub record IsWeakOrderOn {ℓ} {A : Type ℓ} (Good : A → Type 0) (less : A → A → Bool) : Type ℓ where
  pub asym : (a b : A) → Good a → Good b → less a b ≡ true → less b a ≡ false
  pub not_less_trans :
      (a b c : A)
      → Good a
      → Good b
      → Good c
      → less b a ≡ false
      → less c b ≡ false
      → less c a ≡ false

module _ {ℓ} {A : Type ℓ} (Good : A → Type 0) (less : A → A → Bool)
    (order : IsWeakOrderOn Good less) where
  All-not_less :
      (x y : A) (zs : List A)
      → Good x
      → Good y
      → All Good zs
      → less y x ≡ false
      → All (λ z. less z y ≡ false) zs
      → All (λ z. less z x ≡ false) zs
  All-not_less x y [] gx gy g h hs = tt
  All-not_less x y (z ∷ zs) gx gy g h hs =
      (order.not_less_trans x y z gx gy g.0 h hs.0, All-not_less x y zs gx gy g.1 h hs.1)

  pub All-insert :
      (Q : A → Type 0) (x : A) (ys : List A) → Q x → All Q ys → All Q (insert less x ys)
  unfolding insert
  All-insert Q x [] h hs = (h, tt)
  All-insert Q x (y ∷ ys) h hs = elim (Bool-cases (less y x)) [
    | inl t ↦ rw t (hs.0, All-insert Q x ys h hs.1)
    | inr f ↦ rw f (h, hs)
  ]

  insert-IsSorted :
      (x : A) (ys : List A)
      → Good x
      → All Good ys
      → IsSorted less ys
      → IsSorted less (insert less x ys)
  unfolding insert
  insert-IsSorted x [] gx g s = (tt, tt)
  insert-IsSorted x (y ∷ ys) gx g s = elim (Bool-cases (less y x)) [
    | inl t ↦ rw t (
      All-insert (λ z. less z y ≡ false) x ys (order.asym y x g.0 gx t) s.0,
      insert-IsSorted x ys gx g.1 s.1,
    )
    | inr f ↦ rw f ((f, All-not_less x y ys gx g.0 g.1 f s.0), s)
  ]

  pub All-sort_stable : (xs : List A) → All Good xs → All Good (sort_stable less xs)
  unfolding sort_stable
  All-sort_stable [] g = tt
  All-sort_stable (x ∷ xs) g = All-insert Good x (sort_stable less xs) g.0 (All-sort_stable xs g.1)

  pub sort_stable-IsSorted_on : (xs : List A) → All Good xs → IsSorted less (sort_stable less xs)
  unfolding sort_stable
  sort_stable-IsSorted_on [] g = tt
  sort_stable-IsSorted_on (x ∷ xs) g =
      insert-IsSorted x (sort_stable less xs) g.0 (All-sort_stable xs g.1)
        (sort_stable-IsSorted_on xs g.1)

-- A strict order whose negation is transitive.
pub record IsWeakOrder {ℓ} {A : Type ℓ} (less : A → A → Bool) : Type ℓ where
  pub asym : (a b : A) → less a b ≡ true → less b a ≡ false
  pub not_less_trans : (a b c : A) → less b a ≡ false → less c b ≡ false → less c a ≡ false

module _ {ℓ} {A : Type ℓ} (less : A → A → Bool) (order : IsWeakOrder less) where
  everywhere : IsWeakOrderOn (λ (a : A). Unit) less
  everywhere = record {
    asym = λ a b g h. order.asym a b;
    not_less_trans = λ a b c g h k. order.not_less_trans a b c;
  }

  All-Unit : (xs : List A) → All {ℓ, 0} (λ (a : A). Unit) xs
  All-Unit [] = tt
  All-Unit (x ∷ xs) = (tt, All-Unit xs)

  pub sort_stable-IsSorted : (xs : List A) → IsSorted less (sort_stable less xs)
  sort_stable-IsSorted xs =
      sort_stable-IsSorted_on (λ (a : A). Unit) less everywhere xs (All-Unit xs)
