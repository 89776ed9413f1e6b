-- ===== src/Policy/Scope/Paths/Confined.antt =====
-- The paths that `normalize_path` of policy/scope.py accepts.
use Prim.Native.Char.{Char}
use text.Mathlib.TextBridge.{of_list}
use mathlib.Core.List.{reverse}
use vuln_proof_claw.Common.{
  true, false, ◌≡◌, refl, subst, Option, none, some, List, [], ◌∷◌, ◌++◌, String, any, all,
  if◌then◌else◌, arith, chars, chars-of_list, is_code, is_empty, if_split,
}
use vuln_proof_claw.Common.Results.{ok, raise_if, >>=-eq-ok}
use vuln_proof_claw.Domain.Errors.{domain_validation}
use vuln_proof_claw.Policy.Scope.Paths.{
  normalize_path, normalize_decoded, normpath, has_octet, has_bad_percent, is_barred, join, split,
  keep_segments, strip_slashes, unquote_rounds,
}
use vuln_proof_claw.Policy.Scope.Paths.Segments.{
  is_proper, split-is_clean, keep_segments-is_proper, all-reverse,
}

-- A slash, and segments joined by slashes, none of which is empty, a dot or two, and in none of which
-- there is a control character or a backslash.
pub record IsConfined (path : String) : Type 0 where
  pub segments : List (List Char)
  pub proper : all is_proper segments ≡ true
  pub spelled : chars path ≡ chars "/" ++ join segments

strip_slashes-clean :
    (cs : List Char) → any is_barred cs ≡ false → any is_barred (strip_slashes cs) ≡ false
strip_slashes-clean [] h = refl
strip_slashes-clean (c ∷ cs) h =
    if_split (λ ds. any is_barred ds ≡ false) (is_code b'/' c) _ _
      (λ _. strip_slashes-clean cs (ground arith)) (λ _. h)

normpath-IsConfined :
    (cs : List Char) → any is_barred cs ≡ false → IsConfined (of_list (normpath cs))
unfolding normpath
normpath-IsConfined cs clean =
    let kept = keep_segments [] (split cs) in
    record {
      segments = reverse kept;
      proper =
          all-reverse is_proper kept []
            (keep_segments-is_proper [] (split cs) refl (split-is_clean cs clean)) refl;
      spelled = chars-of_list (chars "/" ++ join (reverse kept));
    }

-- What `normalize_decoded` accepts has no octet left, and gives a confined path.
pub normalize_decoded-IsConfined :
    (decoded : Option (List Char)) {path : String}
    → normalize_decoded decoded ≡ ok path
    → IsConfined path
unfolding normalize_decoded
normalize_decoded-IsConfined none h = cc
normalize_decoded-IsConfined (some cs) {path} h =
    let (_, _, h1) =
      >>=-eq-ok
        (raise_if (has_octet cs) (domain_validation "path contains excessive nested encoding")) _
        h in
    let (_, clean, made) =
      >>=-eq-ok
        (raise_if (any is_barred cs)
          (domain_validation "path contains a control character or backslash"))
        _ h1 in
    let given : of_list (normpath (chars "/" ++ strip_slashes cs)) ≡ path = ground arith in
    subst IsConfined given (
      normpath-IsConfined (chars "/" ++ strip_slashes cs)
        (strip_slashes-clean cs (ground (arith, clean))))

-- A path that `normalize_path` accepts, however often the text was encoded, is a slash and segments
-- joined by slashes: none of them is empty, a dot or two dots, and no character of them is a slash, a
-- backslash or a control character.
pub normalize_path-IsConfined :
    (value : String) {path : String} → normalize_path value ≡ ok path → IsConfined path
unfolding normalize_path
normalize_path-IsConfined value h =
    let candidate = if is_empty (chars value) then chars "/" else chars value in
    let (_, _, done) =
      >>=-eq-ok
        (raise_if (has_bad_percent candidate)
          (domain_validation "path contains invalid percent encoding"))
        _ h in
    normalize_decoded-IsConfined (unquote_rounds 5 candidate) done
