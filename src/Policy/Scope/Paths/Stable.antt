-- ===== src/Policy/Scope/Paths/Stable.antt =====
-- `normalize_path` of policy/scope.py on a path that it gave.
use Prim.Native.Char.{Char}
use text.Mathlib.TextBridge.{of_list}
use mathlib.Core.List.{reverse, reverse-reverse}
use vuln_proof_claw.Common.{
  ℕ, zero, suc, Bool, true, false, not, ◌≡◌, refl, ap, ◌∙◌, sym, some, List, [], ◌∷◌, ◌++◌, String,
  any, all, map, arith, chars, of_list-chars, is_code, is_empty, chars_beq_iff,
}
use vuln_proof_claw.Common.Results.{ok}
use vuln_proof_claw.Policy.Scope.Paths.{
  normalize_path, normalize_decoded, normpath, has_octet, has_bad_percent, is_barred, join,
  strip_slashes, unquote_rounds, unquote, percent_decode, plain, decode, decode_step, fresh,
  keep_segments, keep_segment, octet_at,
}
use vuln_proof_claw.Policy.Scope.Paths.Segments.{
  is_proper, split-join, keep_segments-proper, join-clean,
}
use vuln_proof_claw.Policy.Scope.Paths.Confined.{IsConfined, normalize_path-IsConfined}

-- No percent sign.
abbrev pub is_plain : List Char → Bool
is_plain cs = not (any (is_code b'%') cs)

percent_decode-plain : (cs : List Char) → is_plain cs ≡ true → percent_decode cs ≡ map plain cs
percent_decode-plain [] h = refl
percent_decode-plain (c ∷ []) h = refl
percent_decode-plain (c ∷ d ∷ []) h = refl
percent_decode-plain (c ∷ d ∷ e ∷ cs) h =
    let rest = percent_decode-plain (d ∷ e ∷ cs) (ground arith) in
    let other : octet_at (c ∷ d ∷ e ∷ cs) ≡ false = ground arith in
    rw (other, percent_decode) (ap (λ ts. plain c ∷ ts) rest)

decode-plain : (cs : List Char) → decode fresh (map plain cs) ≡ some cs
unfolding decode decode_step
decode-plain [] = refl
decode-plain (c ∷ cs) = rw (decode-plain cs) refl

unquote-plain : (cs : List Char) → is_plain cs ≡ true → unquote cs ≡ some cs
unfolding unquote
unquote-plain cs h = ap (decode fresh) (percent_decode-plain cs h) ∙ decode-plain cs

unquote_rounds-plain : (n : ℕ) (cs : List Char) → is_plain cs ≡ true → unquote_rounds n cs ≡ some cs
unfolding unquote_rounds
unquote_rounds-plain zero cs h = refl
unquote_rounds-plain (suc n) cs h = ground (arith, unquote-plain cs h, (chars_beq_iff cs cs).1 refl)

plain_no_octet : (cs : List Char) → is_plain cs ≡ true → has_octet cs ≡ false
plain_no_octet [] h = refl
plain_no_octet (c ∷ []) h = refl
plain_no_octet (c ∷ d ∷ []) h = refl
plain_no_octet (c ∷ d ∷ e ∷ cs) h = ground (arith, plain_no_octet (d ∷ e ∷ cs) (ground arith))

plain_no_bad_percent : (cs : List Char) → is_plain cs ≡ true → has_bad_percent cs ≡ false
plain_no_bad_percent [] h = refl
plain_no_bad_percent (c ∷ cs) h = ground (arith, plain_no_bad_percent cs (ground arith))

strip_slashes-join :
    (ss : List (List Char)) → all is_proper ss ≡ true → strip_slashes (join ss) ≡ join ss
strip_slashes-join [] h = refl
strip_slashes-join ([] ∷ ss) h = cc
strip_slashes-join ((c ∷ s) ∷ []) h =
    let other : is_code b'/' c ≡ false = ground arith in rw other refl
strip_slashes-join ((c ∷ s) ∷ t ∷ ss) h =
    let other : is_code b'/' c ≡ false = ground arith in rw other refl

normpath-join :
    (ss : List (List Char))
    → all is_proper ss ≡ true
    → normpath (chars "/" ++ join ss) ≡ chars "/" ++ join ss
unfolding normpath keep_segments keep_segment
normpath-join [] h = refl
normpath-join (s ∷ ss) h =
    ap (λ parts. chars "/" ++ join (reverse (keep_segments [] parts))) (split-join s ss h)
    ∙ ap (λ kept. chars "/" ++ join (reverse kept)) (keep_segments-proper [] (s ∷ ss) h)
    ∙ ap (λ parts. chars "/" ++ join parts) (reverse-reverse (s ∷ ss))

confined_stable :
    (path : String) → IsConfined path → is_plain (chars path) ≡ true → normalize_path path ≡ ok path
unfolding normalize_path normalize_decoded
confined_stable path c plain_path =
    let some_text : is_empty (chars path) ≡ false = ap is_empty c.spelled in
    let clean : any is_barred (chars path) ≡ false =
      ap (any is_barred) c.spelled ∙ join-clean c.segments c.proper in
    let given : of_list (normpath (chars "/" ++ strip_slashes (chars path))) ≡ path =
      ap (λ cs. of_list (normpath (chars "/" ++ strip_slashes cs))) c.spelled
      ∙ ap (λ cs. of_list (normpath (chars "/" ++ cs))) (strip_slashes-join c.segments c.proper)
      ∙ ap of_list (normpath-join c.segments c.proper)
      ∙ ap of_list (sym c.spelled)
      ∙ of_list-chars path in
    ground (
      arith,
      some_text,
      plain_no_bad_percent (chars path) plain_path,
      unquote_rounds-plain 5 (chars path) plain_path,
      plain_no_octet (chars path) plain_path,
      clean,
      given,
    )

-- A path that `normalize_path` gave, and in which no percent sign is left, is its own normal form.
pub normalize_path-normalize_path :
    (value : String) {path : String}
    → normalize_path value ≡ ok path
    → is_plain (chars path) ≡ true
    → normalize_path path ≡ ok path
normalize_path-normalize_path value {path} h plain_path =
    confined_stable path (normalize_path-IsConfined value h) plain_path
