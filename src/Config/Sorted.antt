-- ===== src/Config/Sorted.antt =====
-- internal/config/compare.go: the sorted copies of two lists of tags are the same exactly if the
-- lists are, up to their order.
use Prim.Native.Nat.{Ordering}
use Prim.Native.String.{compare}
use mathlib.Core.Path.{ap₂}
use text.Mathlib.TextEquality.{path_by_compare}
use mathlib.Core.List.{Permᴰ}
use mathlib.Core.List.Permᴰ
use tsbridge.Prelude.Order.{compare-opposite, compare_trans, Ordering-cases, opposite}
use tsbridge.Prelude.{
  String, List, [], ◌∷◌, ◌≡◌, refl, arith, inl, inr, ◌⊎◌, ◌∙◌, sym, subst, ap, length,
}
use tsbridge.Config.Compare.{insert_sorted, sort}

-- The first string goes before the second.
abbrev Before : String → String → Type 0
Before s t = (compare s t ≡ Ordering.lt) ⊎ (compare s t ≡ Ordering.eq)

insert_later :
    (s t : String) (ts : List String)
    → compare s t ≡ Ordering.gt
    → insert_sorted s (t ∷ ts) ≡ t ∷ insert_sorted s ts
unfolding insert_sorted
insert_later s t ts h = rw (h, insert_sorted) refl

insert_here : (s t : String) (ts : List String) → Before s t → insert_sorted s (t ∷ ts) ≡ s ∷ t ∷ ts
unfolding insert_sorted
insert_here s t ts (inl h) = rw (h, insert_sorted) refl
insert_here s t ts (inr h) = rw (h, insert_sorted) refl

Before-cases : (s t : String) → Before s t ⊎ (compare s t ≡ Ordering.gt)
Before-cases s t = elim (Ordering-cases (compare s t)) [
  | inl h ↦ inl (inl h)
  | inr (inl h) ↦ inl (inr h)
  | inr (inr h) ↦ inr h
]

module _ (a b : String) (h : compare a b ≡ Ordering.lt) where
  b_after : compare b a ≡ Ordering.gt
  b_after = compare-opposite a b ∙ ap opposite h

  insert_in_order :
      (l : List String) → insert_sorted a (insert_sorted b l) ≡ insert_sorted b (insert_sorted a l)
  unfolding insert_sorted
  insert_in_order [] = insert_here a b [] (inl h) ∙ sym (insert_later b a [] b_after)
  insert_in_order (t ∷ ts) = elim (Before-cases a t) [
    | inl before ↦
        first t ts (Before-cases b t) before
        ∙ sym (insert_later b a (t ∷ ts) b_after)
        ∙ sym (ap (insert_sorted b) (insert_here a t ts before))
    | inr after ↦
        let t_first : compare t a ≡ Ordering.lt = compare-opposite a t ∙ ap opposite after in
        let after' : compare b t ≡ Ordering.gt =
          compare-opposite t b ∙ ap opposite (compare_trans t a b t_first h) in
        ap (insert_sorted a) (insert_later b t ts after')
        ∙ insert_later a t (insert_sorted b ts) after
        ∙ ap (λ (l : List String). t ∷ l) (insert_in_order ts)
        ∙ sym (insert_later b t (insert_sorted a ts) after')
        ∙ sym (ap (insert_sorted b) (insert_later a t ts after))
  ]
    where
      first :
          (t : String) (ts : List String)
          → Before b t ⊎ (compare b t ≡ Ordering.gt)
          → Before a t
          → insert_sorted a (insert_sorted b (t ∷ ts)) ≡ a ∷ insert_sorted b (t ∷ ts)
      first t ts (inl b_before) a_before =
          ap (insert_sorted a) (insert_here b t ts b_before)
          ∙ insert_here a b (t ∷ ts) (inl h)
          ∙ ap (λ (l : List String). a ∷ l) (sym (insert_here b t ts b_before))
      first t ts (inr after) a_before =
          ap (insert_sorted a) (insert_later b t ts after)
          ∙ insert_here a t (insert_sorted b ts) a_before
          ∙ ap (λ (l : List String). a ∷ l) (sym (insert_later b t ts after))

insert_swap :
    (a b : String) (l : List String)
    → insert_sorted a (insert_sorted b l) ≡ insert_sorted b (insert_sorted a l)
insert_swap a b l = elim (Ordering-cases (compare a b)) [
  | inl h ↦ insert_in_order a b h l
  | inr (inl h) ↦ let same = path_by_compare a b h in rw same refl
  | inr (inr h) ↦ sym (insert_in_order b a (compare-opposite a b ∙ ap opposite h) l)
]

pub Perm-sort_eq : {x y : List String} → Permᴰ x y → sort x ≡ sort y
unfolding sort
Perm-sort_eq Permᴰ.nil = refl
Perm-sort_eq (Permᴰ.cons e p) = ap₂ insert_sorted e (Perm-sort_eq p)
Perm-sort_eq (Permᴰ.swap {a = a} {b = b} {l = l} e f) =
    insert_swap a b (sort l) ∙ ap₂ insert_sorted f (ap (λ (x : String). insert_sorted x (sort l)) e)
Perm-sort_eq (Permᴰ.trans p q) = Perm-sort_eq p ∙ Perm-sort_eq q

insert-Perm : (s : String) (l : List String) → Permᴰ (s ∷ l) (insert_sorted s l)
unfolding insert_sorted
insert-Perm s [] = Permᴰ.refl (s ∷ [])
insert-Perm s (t ∷ ts) = elim (Before-cases s t) [
  | inl before ↦ subst (Permᴰ (s ∷ t ∷ ts)) (sym (insert_here s t ts before)) (Permᴰ.refl _)
  | inr after ↦
      subst (Permᴰ (s ∷ t ∷ ts)) (sym (insert_later s t ts after))
        (Permᴰ.trans (Permᴰ.swap refl refl) (Permᴰ.cons refl (insert-Perm s ts)))
]

pub sort-Perm : (l : List String) → Permᴰ l (sort l)
unfolding sort
sort-Perm [] = Permᴰ.nil
sort-Perm (s ∷ ss) = Permᴰ.trans (Permᴰ.cons refl (sort-Perm ss)) (insert-Perm s (sort ss))

pub length-Perm : {x y : List String} → Permᴰ x y → length x ≡ length y
length-Perm Permᴰ.nil = refl
length-Perm (Permᴰ.cons e p) = omega (arith, length-Perm p)
length-Perm (Permᴰ.swap e f) = omega arith
length-Perm (Permᴰ.trans p q) = length-Perm p ∙ length-Perm q
