-- ===== src/Policy/Scope/Paths/Segments.antt =====
-- The segments of a path: splitting, joining, and what of a path goes into them.
use Prim.Native.Char.{Char}
use mathlib.Core.List.{reverse_aux}
use vuln_proof_claw.Common.{
  Bool, true, false, not, ◌&&◌, ◌||◌, ◌≡◌, refl, ap, ◌∙◌, List, [], ◌∷◌, ◌++◌, any, all, is_empty,
  if_split, arith, chars, chars_beq, is_code,
}
use vuln_proof_claw.Policy.Scope.Paths.{
  split, join, push, pop, keep_segment, keep_segments, is_barred,
}

-- No slash, control character or backslash.
abbrev pub is_clean : List Char → Bool
is_clean s = not (any (λ c. is_code b'/' c || is_barred c) s)

-- Neither empty, nor a dot, nor two.
abbrev pub is_kept_name : List Char → Bool
is_kept_name s = not (is_empty s || chars_beq s (chars ".") || chars_beq s (chars ".."))

abbrev pub is_proper : List Char → Bool
is_proper s = is_clean s && is_kept_name s

push-is_clean :
    (c : Char) (ss : List (List Char))
    → (is_code b'/' c || is_barred c) ≡ false
    → all is_clean ss ≡ true
    → all is_clean (push c ss) ≡ true
push-is_clean c [] h k = ground arith
push-is_clean c (s ∷ ss) h k = ground arith

pub split-is_clean : (cs : List Char) → any is_barred cs ≡ false → all is_clean (split cs) ≡ true
split-is_clean [] h = refl
split-is_clean (c ∷ cs) h =
    let rest = split-is_clean cs (ground arith) in
    if_split (λ ss. all is_clean ss ≡ true) (is_code b'/' c) _ _ (λ _. rest)
      (λ other. push-is_clean c (split cs) (ground arith) rest)

keep_segment-is_proper :
    (kept : List (List Char)) (s : List Char)
    → all is_proper kept ≡ true
    → is_clean s ≡ true
    → all is_proper (keep_segment kept s) ≡ true
unfolding keep_segment
keep_segment-is_proper kept s proper clean =
    if_split (λ ss. all is_proper ss ≡ true) (is_empty s || chars_beq s (chars ".")) _ _
      (λ _. proper)
      λ some_name.
        if_split (λ ss. all is_proper ss ≡ true) (chars_beq s (chars "..")) _ _
          (λ _. popped kept proper) (λ no_parent. ground arith)
  where
    popped : (ss : List (List Char)) → all is_proper ss ≡ true → all is_proper (pop ss) ≡ true
    popped [] h = refl
    popped (t ∷ ts) h = ground arith

pub keep_segments-is_proper :
    (kept ss : List (List Char))
    → all is_proper kept ≡ true
    → all is_clean ss ≡ true
    → all is_proper (keep_segments kept ss) ≡ true
unfolding keep_segments
keep_segments-is_proper kept [] proper clean = proper
keep_segments-is_proper kept (s ∷ ss) proper clean =
    keep_segments-is_proper (keep_segment kept s) ss
      (keep_segment-is_proper kept s proper (ground arith)) (ground arith)

pub all-reverse {ℓ} :
    {A : Type ℓ} (p : A → Bool) (xs ys : List A)
    → all p xs ≡ true
    → all p ys ≡ true
    → all p (reverse_aux xs ys) ≡ true
all-reverse p [] ys h k = k
all-reverse p (x ∷ xs) ys h k = all-reverse p xs (x ∷ ys) (ground arith) (ground arith)

pub any-append {ℓ} :
    {A : Type ℓ} (p : A → Bool) (xs ys : List A) → any p (xs ++ ys) ≡ (any p xs || any p ys)
any-append p [] ys = refl
any-append p (x ∷ xs) ys = ground (arith, any-append p xs ys)

any_barred-clean : (s : List Char) → is_clean s ≡ true → any is_barred s ≡ false
any_barred-clean [] h = refl
any_barred-clean (c ∷ cs) h = ground (arith, any_barred-clean cs (ground arith))

pub join-clean : (ss : List (List Char)) → all is_proper ss ≡ true → any is_barred (join ss) ≡ false
join-clean [] h = refl
join-clean (s ∷ []) h = any_barred-clean s (ground arith)
join-clean (s ∷ t ∷ ss) h =
    any-append is_barred s (chars "/" ++ join (t ∷ ss))
    ∙ ground (arith, any_barred-clean s (ground arith), join-clean (t ∷ ss) (ground arith))

push-append :
    (c : Char) (ss ts : List (List Char))
    → is_empty ss ≡ false
    → push c (ss ++ ts) ≡ push c ss ++ ts
push-append c [] ts h = cc
push-append c (s ∷ ss) ts h = refl

push-some : (c : Char) (ss : List (List Char)) → is_empty (push c ss) ≡ false
push-some c [] = refl
push-some c (s ∷ ss) = refl

split-some : (cs : List Char) → is_empty (split cs) ≡ false
split-some [] = refl
split-some (c ∷ cs) =
    if_split (λ (ss : List (List Char)). is_empty ss ≡ false) (is_code b'/' c) _ _ (λ _. refl)
      (λ _. push-some c (split cs))

-- Splitting at a slash.
pub split-slash :
    (s : List Char) (c : Char) (cs : List Char)
    → is_code b'/' c ≡ true
    → split (s ++ c ∷ cs) ≡ split s ++ split cs
split-slash [] c cs h = rw h refl
split-slash (d ∷ s) c cs h =
    let rest = split-slash s c cs h in
    if_split (λ ss. ss ≡ split (d ∷ s) ++ split cs) (is_code b'/' d) _ _
      (λ e. rw e (ap (λ (xs : List (List Char)). [] ∷ xs) rest))
      (λ e. rw e (ap (push d) rest ∙ push-append d (split s) (split cs) (split-some s)))

split-clean : (s : List Char) → is_clean s ≡ true → split s ≡ s ∷ []
split-clean [] h = refl
split-clean (c ∷ cs) h =
    let rest = split-clean cs (ground arith) in
    let other : is_code b'/' c ≡ false = ground arith in rw (other, rest) refl

pub split-join :
    (s : List Char) (ss : List (List Char))
    → all is_proper (s ∷ ss) ≡ true
    → split (join (s ∷ ss)) ≡ s ∷ ss
split-join s [] h = split-clean s (ground arith)
split-join s (t ∷ ss) h =
    split-slash s _ (join (t ∷ ss)) refl
    ∙ ap (λ xs. xs ++ split (join (t ∷ ss))) (split-clean s (ground arith))
    ∙ ap (λ xs. s ∷ xs) (split-join t ss (ground arith))

keep_segment-proper :
    (kept : List (List Char)) (s : List Char) → is_proper s ≡ true → keep_segment kept s ≡ s ∷ kept
unfolding keep_segment
keep_segment-proper kept s h = ground arith

-- Segments that are proper are all kept.
pub keep_segments-proper :
    (kept ss : List (List Char))
    → all is_proper ss ≡ true
    → keep_segments kept ss ≡ reverse_aux ss kept
unfolding keep_segments
keep_segments-proper kept [] h = refl
keep_segments-proper kept (s ∷ ss) h =
    ap (λ k. keep_segments k ss) (keep_segment-proper kept s (ground arith))
    ∙ keep_segments-proper (s ∷ kept) ss (ground arith)
