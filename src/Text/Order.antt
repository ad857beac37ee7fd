-- ===== src/Text/Order.antt =====
-- The order of texts by code points.
use epochdeck.Prelude.{◌≡◌, refl, true, false, [], ◌∷◌, arith}
use epochdeck.Text.{Text, text_eq, text_lt}

pub text_lt_trans : (a b c : Text) → text_lt a b ≡ true → text_lt b c ≡ true → text_lt a c ≡ true
unfolding text_lt
text_lt_trans [] [] c h g = ground arith
text_lt_trans [] (y ∷ b) [] h g = ground arith
text_lt_trans [] (y ∷ b) (z ∷ c) h g = refl
text_lt_trans (x ∷ a) [] c h g = ground arith
text_lt_trans (x ∷ a) (y ∷ b) [] h g = ground arith
text_lt_trans (x ∷ a) (y ∷ b) (z ∷ c) h g = ground (arith, text_lt_trans a b c)

pub text_lt_asym : (a b : Text) → text_lt a b ≡ true → text_lt b a ≡ false
unfolding text_lt
text_lt_asym [] [] h = ground arith
text_lt_asym [] (y ∷ b) h = refl
text_lt_asym (x ∷ a) [] h = ground arith
text_lt_asym (x ∷ a) (y ∷ b) h = ground (arith, text_lt_asym a b)

pub text_lt_differs : (a b : Text) → text_lt a b ≡ true → text_eq a b ≡ false
unfolding text_lt text_eq
text_lt_differs [] [] h = ground arith
text_lt_differs [] (y ∷ b) h = refl
text_lt_differs (x ∷ a) [] h = ground arith
text_lt_differs (x ∷ a) (y ∷ b) h = ground (arith, text_lt_differs a b)

pub text_lt_total : (a b : Text) → text_lt a b ≡ false → text_eq a b ≡ false → text_lt b a ≡ true
unfolding text_lt text_eq
text_lt_total [] [] h g = ground arith
text_lt_total [] (y ∷ b) h g = ground arith
text_lt_total (x ∷ a) [] h g = refl
text_lt_total (x ∷ a) (y ∷ b) h g = ground (arith, text_lt_total a b)
