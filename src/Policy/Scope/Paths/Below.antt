-- ===== src/Policy/Scope/Paths/Below.antt =====
-- What `_path_matches` of policy/scope.py says of confined paths.
use Prim.Native.Char.{Char}
use text.Mathlib.TextBridge.{of_list}
use text.Mathlib.TextEquality.{Char-path}
use mathlib.Core.List.{append-nil, append_assoc}
use vuln_proof_claw.Common.{
  of_list-chars, Bool, false, ◌↔◌, true, ◌≡◌, refl, ap, ◌∙◌, sym, List, [], ◌∷◌, ◌++◌, String, all,
  if◌then◌else◌, arith, chars, is_code, is_empty, ◌==◌, string_eq, eq_iff, codes, starts_with,
  Bool-cases, inl, inr,
}
use vuln_proof_claw.Policy.Scope.{path_matches}
use vuln_proof_claw.Policy.Scope.Paths.{join, split}
use vuln_proof_claw.Policy.Scope.Paths.Segments.{is_proper, split-join, split-slash}
use vuln_proof_claw.Policy.Scope.Paths.Confined.{IsConfined}

-- A text that starts with another and a slash.
starts_with-chars :
    (p q : String)
    → starts_with (codes p ++ b'/' ∷ []) (codes q) ≡ true
    → (c : Char) × (rest : List Char) × (is_code b'/' c ≡ true) × (chars q ≡ chars p ++ c ∷ rest)
starts_with-chars String.[] String.[] h = cc
starts_with-chars String.[] (String.◌∷◌ c q) h = (c, chars q, ground arith, refl)
starts_with-chars (String.◌∷◌ c p) String.[] h = cc
starts_with-chars (String.◌∷◌ c p) (String.◌∷◌ d q) h =
    let (e, rest, slash, spelled) = starts_with-chars p q (ground arith) in
    let same : d ≡ c = Char-path d c (ground arith) in
    (e, rest, slash, ap (λ cs. d ∷ cs) spelled ∙ ap (λ x. x ∷ (chars p ++ e ∷ rest)) same)

-- The segments that are not empty.
abbrev solid : List (List Char) → List (List Char)
solid [] = []
solid (s ∷ ss) = if is_empty s then solid ss else s ∷ solid ss

solid-append : (ss ts : List (List Char)) → solid (ss ++ ts) ≡ solid ss ++ solid ts
solid-append [] ts = refl
solid-append (s ∷ ss) ts = ground (arith, solid-append ss ts)

solid-proper : (ss : List (List Char)) → all is_proper ss ≡ true → solid ss ≡ ss
solid-proper [] h = refl
solid-proper (s ∷ ss) h = ground (arith, solid-proper ss (ground arith))

solid-join : (ss : List (List Char)) → all is_proper ss ≡ true → solid (split (join ss)) ≡ ss
solid-join [] h = refl
solid-join (s ∷ ss) h = ap solid (split-join s ss h) ∙ solid-proper (s ∷ ss) h

solid-IsConfined : (path : String) (c : IsConfined path) → solid (split (chars path)) ≡ c.segments
solid-IsConfined path c = ap (λ cs. solid (split cs)) c.spelled ∙ solid-join c.segments c.proper

-- Where a path matches a prefix, its segments start with those of the prefix.
match_segments :
    (path prefix : String) (p : IsConfined path) (q : IsConfined prefix)
    → path_matches path prefix ≡ true
    → (rest : List (List Char)) × (p.segments ≡ q.segments ++ rest)
unfolding path_matches
match_segments path prefix p q h =
    let of_path = solid-IsConfined path p in
    let of_prefix = solid-IsConfined prefix q in
    elim (Bool-cases (prefix == "/")) [
      | inl root ↦ (
        p.segments,
        ap (λ ss. ss ++ p.segments)
            (ap (λ x. solid (split (chars x))) (sym ((eq_iff prefix "/").0 root)) ∙ of_prefix),
      )
      | inr below ↦ elim (Bool-cases (prefix == path)) [
        | inl same ↦ (
          [],
          sym of_path
              ∙ ap (λ x. solid (split (chars x))) (sym ((eq_iff prefix path).0 same))
              ∙ of_prefix
              ∙ sym (append-nil q.segments),
        )
        | inr other ↦
            let (c, rest, slash, spelled) = starts_with-chars prefix path (ground arith) in
            (
              solid (split rest),
              sym of_path
                  ∙ ap (λ cs. solid (split cs)) spelled
                  ∙ ap solid (split-slash (chars prefix) c rest slash)
                  ∙ solid-append (split (chars prefix)) (split rest)
                  ∙ ap (λ ss. ss ++ solid (split rest)) of_prefix,
            )
      ]
    ]

join-append :
    (s : List Char) (ss : List (List Char)) (t : List Char) (ts : List (List Char))
    → join ((s ∷ ss) ++ t ∷ ts) ≡ join (s ∷ ss) ++ (chars "/" ++ join (t ∷ ts))
join-append s [] t ts = refl
join-append s (r ∷ ss) t ts =
    ap (λ cs. s ++ (chars "/" ++ cs)) (join-append r ss t ts)
    ∙ sym (append_assoc s (chars "/" ++ join (r ∷ ss)) (chars "/" ++ join (t ∷ ts)))

abbrev first_is_slash : List Char → Bool
first_is_slash [] = false
first_is_slash (c ∷ cs) = is_code b'/' c

starts_with-of_chars :
    (p q : String) (rest : List Char)
    → chars q ≡ chars p ++ (chars "/" ++ rest)
    → starts_with (codes p ++ b'/' ∷ []) (codes q) ≡ true
starts_with-of_chars String.[] String.[] rest h = cc
starts_with-of_chars String.[] (String.◌∷◌ c q) rest h =
    let slash : is_code b'/' c ≡ true = ap first_is_slash h in ground (arith, slash)
starts_with-of_chars (String.◌∷◌ c p) String.[] rest h = cc
starts_with-of_chars (String.◌∷◌ c p) (String.◌∷◌ d q) rest h =
    let same : d ≡ c = ground arith in
    ground (arith, same, starts_with-of_chars p q rest (ground arith))

spelled_alike : (p q : String) → chars p ≡ chars q → p ≡ q
spelled_alike p q h = sym (of_list-chars p) ∙ ap of_list h ∙ of_list-chars q

segments_match :
    (path prefix : String) (qs rest : List (List Char))
    → chars prefix ≡ chars "/" ++ join qs
    → chars path ≡ chars "/" ++ join (qs ++ rest)
    → path_matches path prefix ≡ true
unfolding path_matches
segments_match path prefix [] rest h k =
    let root : (prefix == "/") ≡ true = (eq_iff prefix "/").1 (spelled_alike prefix "/" h) in
    ground (arith, root)
segments_match path prefix (s ∷ ss) [] h k =
    let spelled : chars prefix ≡ chars path =
      h ∙ ap (λ ts. chars "/" ++ join ts) (sym (append-nil (s ∷ ss))) ∙ sym k in
    let same : (prefix == path) ≡ true =
      (eq_iff prefix path).1 (spelled_alike prefix path spelled) in
    ground (arith, same)
segments_match path prefix (s ∷ ss) (t ∷ ts) h k =
    let below : starts_with (codes prefix ++ b'/' ∷ []) (codes path) ≡ true =
      starts_with-of_chars prefix path (join (t ∷ ts)) (
        k
        ∙ ap (λ cs. chars "/" ++ cs) (join-append s ss t ts)
        ∙ ap (λ cs. cs ++ (chars "/" ++ join (t ∷ ts))) (sym h)) in
    ground (arith, below)

-- Where the segments of a path start with those of a prefix, the path matches the prefix.
IsConfined-path_matches :
    (path prefix : String) (p : IsConfined path) (q : IsConfined prefix) (rest : List (List Char))
    → p.segments ≡ q.segments ++ rest
    → path_matches path prefix ≡ true
IsConfined-path_matches path prefix p q rest h =
    segments_match path prefix q.segments rest q.spelled
      (p.spelled ∙ ap (λ ss. chars "/" ++ join ss) h)

-- A path matches a prefix, both confined, exactly if the segments of the prefix are the first segments
-- of the path.
pub path_matches-IsConfined :
    (path prefix : String) (p : IsConfined path) (q : IsConfined prefix)
    → (path_matches path prefix ≡ true)
      ↔ ((rest : List (List Char)) × (p.segments ≡ q.segments ++ rest))
path_matches-IsConfined path prefix p q =
    (match_segments path prefix p q, λ (rest, h). IsConfined-path_matches path prefix p q rest h)
