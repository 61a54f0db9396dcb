-- ===== src/Pcs/Sorting.antt =====
-- Sorting forgets the order of the refused builders (src/domain/pcs.rs).
use native.Mathlib.Nat.{ℕ_set}
use mathlib.Core.List.{Permᴰ, Perm, is_set}
use mathlib.Core.Logic.{∥∥₁_elim}
use wqc_node.Base.{◌≡◌, refl, ◌∙◌, true, List, [], ◌∷◌, arith, inl, inr, ◌⊎◌}
use wqc_node.Base.Text.{Text}
use wqc_node.Pcs.{text_le, insert_text, sort}

text_le-total : (s t : Text) → (text_le s t ≡ true) ⊎ (text_le t s ≡ true)
unfolding text_le
text_le-total [] t = inl refl
text_le-total (x ∷ xs) [] = inr refl
text_le-total (x ∷ xs) (y ∷ ys) = ground (arith, text_le-total xs ys)

text_le-antisym : (s t : Text) → text_le s t ≡ true → text_le t s ≡ true → s ≡ t
unfolding text_le
text_le-antisym [] [] h k = refl
text_le-antisym [] (y ∷ ys) h k = ground (arith, h, k)
text_le-antisym (x ∷ xs) [] h k = ground (arith, h, k)
text_le-antisym (x ∷ xs) (y ∷ ys) h k = ground (arith, h, k, text_le-antisym xs ys)

text_le_trans : (s t u : Text) → text_le s t ≡ true → text_le t u ≡ true → text_le s u ≡ true
unfolding text_le
text_le_trans [] t u h k = refl
text_le_trans (x ∷ xs) [] u h k = ground (arith, h)
text_le_trans (x ∷ xs) (y ∷ ys) [] h k = ground (arith, k)
text_le_trans (x ∷ xs) (y ∷ ys) (z ∷ zs) h k = ground (arith, h, k, text_le_trans xs ys zs)

insert-insert :
    (s t : Text) (us : List Text)
    → insert_text s (insert_text t us) ≡ insert_text t (insert_text s us)
unfolding insert_text
insert-insert s t [] = ground (arith, text_le-total s t, text_le-antisym s t)
insert-insert s t (u ∷ us) = ground (
  arith,
  text_le-total s t,
  text_le-antisym s t,
  text_le_trans s t u,
  text_le_trans t s u,
  insert-insert s t us,
)

sort-Permᴰ : (ts us : List Text) → Permᴰ ts us → sort ts ≡ sort us
unfolding sort
sort-Permᴰ _ _ Permᴰ.nil = refl
sort-Permᴰ _ _ (Permᴰ.cons {a} {b} {l₁} {l₂} e p) = rw (e, sort-Permᴰ l₁ l₂ p) refl
sort-Permᴰ _ _ (Permᴰ.swap {a} {b} {a'} {b'} {l} e f) = rw (e, f) (insert-insert b' a' (sort l))
sort-Permᴰ _ _ (Permᴰ.trans {l₁} {l₂} {l₃} p q) = sort-Permᴰ l₁ l₂ p ∙ sort-Permᴰ l₂ l₃ q

-- Lists with the same texts in another order sort to the same list.
pub sort-Perm : (ts us : List Text) → Perm ts us → sort ts ≡ sort us
sort-Perm ts us p = ∥∥₁_elim p (is_set (is_set ℕ_set) (sort ts) (sort us)) (sort-Permᴰ ts us)
