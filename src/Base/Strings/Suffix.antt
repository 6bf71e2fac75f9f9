-- ===== src/Base/Strings/Suffix.antt =====
-- A suffix that was appended is cut off again.
use mathlib.Core.Path.{◌≡◌, refl, sym, ◌∙◌, ap}
use Prim.Native.Nat.{◌+◌}
use mathlib.Core.Bool.{true}
use mathlib.Core.List.{[], ◌∷◌, ◌++◌, reverse, reverse_aux, reverse-append, reverse-reverse}
use native.Mathlib.Omega.{arith}
use kiro_usage_pipeline.Base.Tests.{nat_eq}
use kiro_usage_pipeline.Base.Strings.{Text, starts_with, ends_with, drop, count, without_suffix}

starts_with-append : (a b : Text) → starts_with (a ++ b) a ≡ true
unfolding starts_with nat_eq
starts_with-append [] b = refl
starts_with-append (c ∷ a) b = ground (arith, starts_with-append a b)

drop-count-append : (a b : Text) → drop (count a) (a ++ b) ≡ b
drop-count-append [] b = refl
drop-count-append (c ∷ a) b = drop-count-append a b

count-reverse_aux : (a acc : Text) → count (reverse_aux a acc) ≡ count a + count acc
count-reverse_aux [] acc = omega arith
count-reverse_aux (c ∷ a) acc = omega (arith, count-reverse_aux a (c ∷ acc))

count-reverse : (a : Text) → count (reverse a) ≡ count a
count-reverse a = omega (arith, count-reverse_aux a [])

drop-reverse : (a b : Text) → drop (count b) (reverse (a ++ b)) ≡ reverse a
drop-reverse a b =
    ap (drop (count b)) (reverse-append a b)
    ∙ ap (λ n. drop n (reverse b ++ reverse a)) (sym (count-reverse b))
    ∙ drop-count-append (reverse b) (reverse a)

ends_with-append : (a b : Text) → ends_with (a ++ b) b ≡ true
unfolding ends_with
ends_with-append a b = rw (reverse-append a b) (starts_with-append (reverse b) (reverse a))

pub without_suffix-append : (a b : Text) → without_suffix (a ++ b) b ≡ a
unfolding without_suffix
without_suffix-append a b =
    rw (ends_with-append a b) (ap reverse (drop-reverse a b) ∙ reverse-reverse a)
