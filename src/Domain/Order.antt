-- ===== src/Domain/Order.antt =====
-- ValidateBalanced and the order of the postings.
use ledgercore.Base.{
  suc, ◌≡◌, refl, ◌∙◌, sym, ap, List, ◌∷◌, Text, ℤ, ◌+ℤ◌, length, All, Result, ok, int_laws, arith,
  All-perm,
}
use mathlib.Core.Logic.{∥∥₁_elim}
use mathlib.Core.List.{Perm, Permᴰ}
use ledgercore.Domain.{Posting, DomainError}
use ledgercore.Domain.Postings.{validate_balanced}
use ledgercore.Domain.Balanced.{debits_in, credits_in, IsPosting, FitsInt64, IsBalanced}
use ledgercore.Domain.Balanced.Verdict.{validate_balanced_iff}

swap_terms : (x y z : ℤ) → x +ℤ (y +ℤ z) ≡ y +ℤ (x +ℤ z)
swap_terms x y z = omega int_laws

debits_in-swap :
    (a : Text) (p q : Posting) (l : List Posting)
    → debits_in a (p ∷ q ∷ l) ≡ debits_in a (q ∷ p ∷ l)
unfolding debits_in
debits_in-swap a p q l = swap_terms _ _ _

credits_in-swap :
    (a : Text) (p q : Posting) (l : List Posting)
    → credits_in a (p ∷ q ∷ l) ≡ credits_in a (q ∷ p ∷ l)
unfolding credits_in
credits_in-swap a p q l = swap_terms _ _ _

pub debits_in-perm :
    (a : Text) {ps qs : List Posting} → Permᴰ ps qs → debits_in a ps ≡ debits_in a qs
unfolding debits_in
debits_in-perm a Permᴰ.nil = refl
debits_in-perm a (Permᴰ.cons e d) = cc (debits_in-perm a d)
debits_in-perm a (Permᴰ.swap {a = p} {b = q} {l = l} e f) =
    debits_in-swap a p q l ∙ (λ i. debits_in a (f i ∷ e i ∷ l))
debits_in-perm a (Permᴰ.trans c d) = debits_in-perm a c ∙ debits_in-perm a d

pub credits_in-perm :
    (a : Text) {ps qs : List Posting} → Permᴰ ps qs → credits_in a ps ≡ credits_in a qs
unfolding credits_in
credits_in-perm a Permᴰ.nil = refl
credits_in-perm a (Permᴰ.cons e d) = cc (credits_in-perm a d)
credits_in-perm a (Permᴰ.swap {a = p} {b = q} {l = l} e f) =
    credits_in-swap a p q l ∙ (λ i. credits_in a (f i ∷ e i ∷ l))
credits_in-perm a (Permᴰ.trans c d) = credits_in-perm a c ∙ credits_in-perm a d

length-perm : {ps qs : List Posting} → Permᴰ ps qs → length ps ≡ length qs
length-perm Permᴰ.nil = refl
length-perm (Permᴰ.cons e d) = ap suc (length-perm d)
length-perm (Permᴰ.swap e f) = refl
length-perm (Permᴰ.trans c d) = length-perm c ∙ length-perm d

pub IsBalanced-perm : {ps qs : List Posting} → Permᴰ ps qs → IsBalanced ps → IsBalanced qs
IsBalanced-perm {ps} {qs} d h = record {
  enough = let n = h.enough in let e = length-perm d in omega arith;
  valid = All-perm IsPosting d h.valid;
  fits = λ a. rw (← debits_in-perm a d) (h.fits a);
  balanced = λ a. sym (debits_in-perm a d) ∙ (h.balanced a ∙ credits_in-perm a d);
}

DomainError-set : IsSet (Result DomainError (Unit {0}))
DomainError-set = hlevel

-- Postings with amounts of at most the largest int64 that ValidateBalanced accepts are accepted in
-- every other order.
pub validate_balanced-perm :
    (ps qs : List Posting)
    → Perm ps qs
    → All FitsInt64 ps
    → validate_balanced ps ≡ ok tt
    → validate_balanced qs ≡ ok tt
validate_balanced-perm ps qs perm b h =
    ∥∥₁_elim perm (DomainError-set (validate_balanced qs) (ok tt)) λ d.
      (validate_balanced_iff qs (All-perm FitsInt64 d b)).1
        (IsBalanced-perm d ((validate_balanced_iff ps b).0 h))
